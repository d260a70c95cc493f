-- ===== src/Boot/Flash.antt =====
-- The flash image, `build_litex_flash_image` of hdl/little64_cores/litex_linux_boot.py: the first
-- stage of the boot code, a header of sixteen words at a fixed offset, the kernel and the device tree.
pub mod Layout
pub mod Readable
use little.Base.{ℕ, zero, suc, ◌+◌, ◌-◌, ◌*◌, ◌^◌, Bool, ◌||◌, ltb, leb, List, [], ◌∷◌}
use little.Boot.Bytes.{Bytes, zeroes, put, put_all, little_endian}
use little.Boot.Elf.{page_size, align_up, LinuxElfImage, flatten_little64_linux_elf_image}
use little.Boot.Results.{
  Error, Result, ok, err, ◌>>=◌, raise_if, stage0_too_large, does_not_fit_ram, field_overflow,
}

abbrev pub header_size : ℕ
header_size = 128

-- `FLASH_BOOT_HEADER.pack`: words of eight bytes, from the one at `index` on, into `header`.
unfoldable pub pack : ℕ → List ℕ → Bytes → Result Bytes
pack index [] header = ok header
pack index (word ∷ words) header =
    raise_if (leb (2 ^ 64) word) field_overflow
      (pack (index + 1) words (put header (index * 8) (little_endian 8 word)))

pub record FlashInputs : Type 0 where
  pub stage0 : Bytes
  pub kernel_elf : Bytes
  pub dtb : Bytes
  pub ram_base : ℕ
  pub ram_size : ℕ
  pub kernel_physical_base : ℕ
  pub header_offset : ℕ
  pub early_pt_scratch_pages : ℕ

pub record FlashImageLayout : Type 0 where
  pub flash_image : Bytes
  pub kernel_flash_offset : ℕ
  pub dtb_flash_offset : ℕ
  pub kernel_physical_base : ℕ
  pub kernel_entry_physical : ℕ
  pub dtb_physical_address : ℕ
  pub kernel_boot_stack_top : ℕ

-- Where the device tree comes in memory, behind the kernel and the pages for its first tables.
abbrev pub dtb_physical : FlashInputs → LinuxElfImage → ℕ
dtb_physical i kernel =
    i.kernel_physical_base + align_up (kernel.image_span + i.early_pt_scratch_pages * page_size)

abbrev pub kernel_offset : FlashInputs → ℕ
kernel_offset i = align_up (i.header_offset + header_size)

abbrev pub dtb_offset : FlashInputs → LinuxElfImage → ℕ
dtb_offset i kernel = align_up (kernel_offset i + kernel.image.size)

abbrev pub flash_size : FlashInputs → LinuxElfImage → ℕ
flash_size i kernel = dtb_offset i kernel + i.dtb.size

abbrev pub boot_stack_top : FlashInputs → ℕ
boot_stack_top i = i.ram_base + i.ram_size - 8

-- `LITTLE64_LITEX_FLASH_BOOT_MAGIC` and `..._ABI_VERSION`, and what the boot code needs to know.
abbrev pub header_words : FlashInputs → LinuxElfImage → List ℕ
header_words i kernel =
    0x4c36_3446_4c41_5348
    ∷ 1
    ∷ kernel_offset i
    ∷ kernel.image.size
    ∷ i.kernel_physical_base
    ∷ kernel.entry_physical
    ∷ dtb_offset i kernel
    ∷ i.dtb.size
    ∷ dtb_physical i kernel
    ∷ boot_stack_top i
    ∷ flash_size i kernel
    ∷ 0
    ∷ 0
    ∷ 0
    ∷ 0
    ∷ 0
    ∷ []

abbrev pub assembled : FlashInputs → LinuxElfImage → Bytes → Bytes
assembled i kernel header = put_all (zeroes (flash_size i kernel)) (
    (0, i.stage0)
    ∷ (i.header_offset, header)
    ∷ (kernel_offset i, kernel.image)
    ∷ (dtb_offset i kernel, i.dtb)
    ∷ [])

abbrev pub overflows_ram : FlashInputs → LinuxElfImage → Bool
overflows_ram i kernel =
    ltb i.kernel_physical_base i.ram_base
    || ltb (i.ram_base + i.ram_size) (i.kernel_physical_base + kernel.image_span)
    || ltb (i.ram_base + i.ram_size) (dtb_physical i kernel + i.dtb.size)

-- A negative top of the stack does not pack.
unfoldable pub build_litex_flash_image : FlashInputs → Result FlashImageLayout
build_litex_flash_image i = raise_if (ltb i.header_offset i.stage0.size) stage0_too_large (do
  kernel ← flatten_little64_linux_elf_image i.kernel_elf i.kernel_physical_base
  raise_if (overflows_ram i kernel) does_not_fit_ram (
      raise_if (ltb (i.ram_base + i.ram_size) 8) field_overflow (do
        header ← pack 0 (header_words i kernel) (zeroes header_size)
        ok (record {
          flash_image = assembled i kernel header;
          kernel_flash_offset = kernel_offset i;
          dtb_flash_offset = dtb_offset i kernel;
          kernel_physical_base = i.kernel_physical_base;
          kernel_entry_physical = kernel.entry_physical;
          dtb_physical_address = dtb_physical i kernel;
          kernel_boot_stack_top = boot_stack_top i;
        }))))
