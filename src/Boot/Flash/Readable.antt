-- ===== src/Boot/Flash/Readable.antt =====
-- What the boot code finds in a finished flash image.
use little.Base.{ℕ, List, [], ◌∷◌, ◌+◌, ◌*◌, ◌≤◌, ◌<◌, ◌≡◌}
use little.Boot.Bytes.{Bytes, zeroes, put}
use little.Boot.Elf.{LinuxElfImage, flatten_little64_linux_elf_image}
use little.Boot.Flash.{
  FlashInputs, FlashImageLayout, kernel_offset, dtb_offset, dtb_physical, flash_size, assembled,
  boot_stack_top,
}
use little.Boot.Flash.Layout.{ReadsWords}
use little.Boot.Results.{ok}

-- The words of the header: its mark and version, where the kernel and the device tree stand in the
-- flash and how large they are, where they go in memory, the entry of the kernel and the top of the
-- boot stack, and the size of the whole.
abbrev reported : FlashInputs → LinuxElfImage → FlashImageLayout → List ℕ
reported i kernel r =
    0x4c36_3446_4c41_5348
    ∷ 1
    ∷ r.kernel_flash_offset
    ∷ kernel.image.size
    ∷ r.kernel_physical_base
    ∷ r.kernel_entry_physical
    ∷ r.dtb_flash_offset
    ∷ i.dtb.size
    ∷ r.dtb_physical_address
    ∷ r.kernel_boot_stack_top
    ∷ (r.dtb_flash_offset + i.dtb.size)
    ∷ 0
    ∷ 0
    ∷ 0
    ∷ 0
    ∷ 0
    ∷ []

-- The image for a kernel: the words of the header, and each part at the offset that they report; and
-- in memory the kernel, the pages for its first tables and the device tree one after the other.
pub record IsFlash (i : FlashInputs) (kernel : LinuxElfImage) (r : FlashImageLayout) : Type 0 where
  pub words_are : ReadsWords r.flash_image i.header_offset (reported i kernel r)
  pub base_is : r.kernel_physical_base ≡ i.kernel_physical_base
  pub entry_is : r.kernel_entry_physical ≡ kernel.entry_physical
  pub stack_is : r.kernel_boot_stack_top + 8 ≡ i.ram_base + i.ram_size
  pub stage0_at : (k : ℕ) → k < i.stage0.size → r.flash_image.at k ≡ i.stage0.at k
  pub kernel_at :
      (k : ℕ)
      → k < kernel.image.size
      → r.flash_image.at (r.kernel_flash_offset + k) ≡ kernel.image.at k
  pub dtb_at : (k : ℕ) → k < i.dtb.size → r.flash_image.at (r.dtb_flash_offset + k) ≡ i.dtb.at k
  pub size_is : r.flash_image.size ≡ r.dtb_flash_offset + i.dtb.size
  pub kernel_in_ram : i.ram_base ≤ r.kernel_physical_base
  pub tables_fit :
      r.kernel_physical_base + kernel.image_span + i.early_pt_scratch_pages * 4096
      ≤ r.dtb_physical_address
  pub dtb_in_ram : r.dtb_physical_address + i.dtb.size ≤ i.ram_base + i.ram_size

module _ (i : FlashInputs) (kernel : LinuxElfImage) (header : Bytes)
    (stage0_fits : i.stage0.size ≤ i.header_offset) (header_is : header.size ≡ 128) where
  abbrev blank : Bytes
  blank = zeroes (flash_size i kernel)

  abbrev with_stage0 : Bytes
  with_stage0 = put blank 0 i.stage0

  abbrev with_header : Bytes
  with_header = put with_stage0 i.header_offset header

  abbrev with_kernel : Bytes
  with_kernel = put with_header (kernel_offset i) kernel.image

abbrev IsBuilt : FlashInputs → FlashImageLayout → Type 0
IsBuilt i r =
    (kernel : LinuxElfImage) × (flatten_little64_linux_elf_image i.kernel_elf i.kernel_physical_base
      ≡ ok kernel)
    × IsFlash i kernel r

abbrev layout_of : FlashInputs → LinuxElfImage → Bytes → FlashImageLayout
layout_of i kernel header = record {
  flash_image = assembled i kernel header;
  kernel_flash_offset = kernel_offset i;
  dtb_flash_offset = dtb_offset i kernel;
  kernel_physical_base = i.kernel_physical_base;
  kernel_entry_physical = kernel.entry_physical;
  dtb_physical_address = dtb_physical i kernel;
  kernel_boot_stack_top = boot_stack_top i;
}
