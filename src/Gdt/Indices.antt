-- ===== src/Gdt/Indices.antt =====
-- The selectors of src/gdt.rs against the segment indices that src/scheduler.rs computes with.
use leaf_os.Common.{ℕ, ◌+◌, ◌*◌, ◌≡◌, true, false, arith}
use leaf_os.Scheduler.{code_selector}
use leaf_os.Gdt.{
  Descriptor, kernel_code_segment, user_code_segment, user_data_segment, tss_segment,
  DescriptorTables, gdt, user_data_segment_idx,
}

-- The privilege of a descriptor, and how many entries it takes.
abbrev pub privilege : Descriptor → ℕ
privilege kernel_code_segment = 0
privilege user_code_segment = 3
privilege user_data_segment = 3
privilege tss_segment = 0

abbrev pub width : Descriptor → ℕ
width tss_segment = 2
width _ = 1

-- `add_entry` appends: the selector is the index of the new entry, shifted by 3, with the
-- descriptor's privilege. The entry 0 of an empty table is the null descriptor.
pub record Appends (t : DescriptorTables) (next_free : t.Table → ℕ) : Type 0 where
  pub null_entry : next_free t.empty ≡ 1
  pub selector :
      (d : Descriptor) (g : t.Table) → (t.add_entry d g).0 ≡ 8 * next_free g + privilege d
  pub appended :
      (d : Descriptor) (g : t.Table) → next_free (t.add_entry d g).1 ≡ next_free g + width d

-- With the crate's `add_entry`, which appends, the selectors that `ProcessState::new` computes for
-- kernel and user code are those of the GDT's code segments, `USER_DATA_SEGMENT_IDX` is the index
-- of the user's data segment, and the task state segment is the entry behind it.
pub gdt-code_selector :
    (t : DescriptorTables) (next_free : t.Table → ℕ)
    → Appends t next_free
    → ((gdt t).1.kernel_code_selector ≡ code_selector true)
      × ((gdt t).1.user_code_selector ≡ code_selector false)
      × ((gdt t).1.user_data_selector ≡ 8 * user_data_segment_idx + 3)
      × ((gdt t).1.tss_selector ≡ 8 * (user_data_segment_idx + 1))
unfolding gdt
gdt-code_selector t next_free law =
    let g₁ = (t.add_entry kernel_code_segment t.empty).1 in
    let g₂ = (t.add_entry user_code_segment g₁).1 in
    let g₃ = (t.add_entry user_data_segment g₂).1 in
    let n₁ : next_free g₁ ≡ 2 =
      omega (arith, law.appended kernel_code_segment t.empty, law.null_entry) in
    let n₂ : next_free g₂ ≡ 3 = omega (arith, law.appended user_code_segment g₁, n₁) in
    let n₃ : next_free g₃ ≡ 4 = omega (arith, law.appended user_data_segment g₂, n₂) in
    (
      omega (arith, law.selector kernel_code_segment t.empty, law.null_entry),
      omega (arith, law.selector user_code_segment g₁, n₁),
      omega (arith, law.selector user_data_segment g₂, n₂),
      omega (arith, law.selector tss_segment g₃, n₃),
    )
