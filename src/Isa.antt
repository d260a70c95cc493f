-- ===== src/Isa.antt =====
-- The encodings of hdl/little64_cores/isa.py: control bits, opcodes, trap vectors and special
-- register numbers.
use little.Base.{ℕ, Option, none, some, ◌==◌, if◌then◌else◌}

abbrev pub cpu_control_int_enable : ℕ
cpu_control_int_enable = 1

abbrev pub cpu_control_in_interrupt : ℕ
cpu_control_in_interrupt = 2

abbrev pub cpu_control_cur_int_mask : ℕ
cpu_control_cur_int_mask = 0x1fc

abbrev pub cpu_control_paging_enable : ℕ
cpu_control_paging_enable = 0x10000

abbrev pub cpu_control_user_mode : ℕ
cpu_control_user_mode = 0x20000

-- The bits of `CPU_CONTROL` that software or the core can set.
abbrev pub cpu_control_writable_mask : ℕ
cpu_control_writable_mask = 0x301ff

pub data LsOpcode : Type 0 where
  load store push pop move : LsOpcode
  byte_load byte_store short_load short_store word_load word_store : LsOpcode
  jump_z jump_c jump_s jump_gt jump_lt : LsOpcode

pub data GpOpcode : Type 0 where
  add sub test llr scr and or xor sll srl sra slli srli srai syscall lsr ssr iret stop : GpOpcode

-- The number of each member of the enumeration `LSOpcode`.
abbrev pub ls_value : LsOpcode → ℕ
ls_value load = 0
ls_value store = 1
ls_value push = 2
ls_value pop = 3
ls_value move = 4
ls_value byte_load = 5
ls_value byte_store = 6
ls_value short_load = 7
ls_value short_store = 8
ls_value word_load = 9
ls_value word_store = 10
ls_value jump_z = 11
ls_value jump_c = 12
ls_value jump_s = 13
ls_value jump_gt = 14
ls_value jump_lt = 15

-- The number of each member of the enumeration `GPOpcode`.
abbrev pub gp_value : GpOpcode → ℕ
gp_value add = 0
gp_value sub = 1
gp_value test = 2
gp_value llr = 3
gp_value scr = 4
gp_value and = 16
gp_value or = 17
gp_value xor = 18
gp_value sll = 20
gp_value srl = 21
gp_value sra = 22
gp_value slli = 23
gp_value srli = 24
gp_value srai = 25
gp_value syscall = 27
gp_value lsr = 28
gp_value ssr = 29
gp_value iret = 30
gp_value stop = 31

-- The member with the number of a four-bit field. Every such number is one.
unfoldable pub to_ls : ℕ → LsOpcode
to_ls n =
    if n == 0
    then load
    else if n == 1
    then store
    else if n == 2
    then push
    else if n == 3
    then pop
    else if n == 4
    then move
    else if n == 5
    then byte_load
    else if n == 6
    then byte_store
    else if n == 7
    then short_load
    else if n == 8
    then short_store
    else if n == 9
    then word_load
    else if n == 10
    then word_store
    else if n == 11
    then jump_z
    else if n == 12
    then jump_c
    else if n == 13
    then jump_s
    else if n == 14
    then jump_gt
    else jump_lt

-- The member with the number of a five-bit field, or none for a number that has no instruction.
unfoldable pub to_gp : ℕ → Option GpOpcode
to_gp n =
    if n == 0
    then some add
    else if n == 1
    then some sub
    else if n == 2
    then some test
    else if n == 3
    then some llr
    else if n == 4
    then some scr
    else if n == 16
    then some and
    else if n == 17
    then some or
    else if n == 18
    then some xor
    else if n == 20
    then some sll
    else if n == 21
    then some srl
    else if n == 22
    then some sra
    else if n == 23
    then some slli
    else if n == 24
    then some srli
    else if n == 25
    then some srai
    else if n == 27
    then some syscall
    else if n == 28
    then some lsr
    else if n == 29
    then some ssr
    else if n == 30
    then some iret
    else if n == 31
    then some stop
    else none

-- Trap vectors.
abbrev pub exec_align : ℕ
exec_align = 1

abbrev pub privileged_instruction : ℕ
privileged_instruction = 2

abbrev pub syscall_trap : ℕ
syscall_trap = 3

abbrev pub syscall_from_supervisor : ℕ
syscall_from_supervisor = 4

abbrev pub page_fault_not_present : ℕ
page_fault_not_present = 5

abbrev pub page_fault_permission : ℕ
page_fault_permission = 6

abbrev pub page_fault_reserved : ℕ
page_fault_reserved = 7

abbrev pub page_fault_canonical : ℕ
page_fault_canonical = 8

abbrev pub invalid_instruction : ℕ
invalid_instruction = 9

abbrev pub first_hw_irq : ℕ
first_hw_irq = 65

-- The special registers; the selector is their number.
pub data SpecialRegister : Type 0 where
  cpu_control page_table_root_physical boot_info_frame_physical : SpecialRegister
  boot_source_page_size boot_source_page_count hypercall_caps : SpecialRegister
  interrupt_table_base interrupt_mask interrupt_mask_high interrupt_states : SpecialRegister
  interrupt_states_high interrupt_epc interrupt_eflags interrupt_cpu_control : SpecialRegister
  trap_cause trap_fault_addr trap_access trap_pc trap_aux thread_pointer : SpecialRegister

-- The number of each member of the enumeration `SpecialRegister`.
abbrev pub special_value : SpecialRegister → ℕ
special_value cpu_control = 0
special_value page_table_root_physical = 11
special_value boot_info_frame_physical = 12
special_value boot_source_page_size = 13
special_value boot_source_page_count = 14
special_value hypercall_caps = 15
special_value interrupt_table_base = 16
special_value interrupt_mask = 17
special_value interrupt_mask_high = 18
special_value interrupt_states = 19
special_value interrupt_states_high = 20
special_value interrupt_epc = 21
special_value interrupt_eflags = 22
special_value interrupt_cpu_control = 23
special_value trap_cause = 24
special_value trap_fault_addr = 25
special_value trap_access = 26
special_value trap_pc = 27
special_value trap_aux = 28
special_value thread_pointer = 0x8000

-- The special register that a selector names, if it names one.
unfoldable pub to_special : ℕ → Option SpecialRegister
to_special n =
    if n == 0
    then some cpu_control
    else if n == 11
    then some page_table_root_physical
    else if n == 12
    then some boot_info_frame_physical
    else if n == 13
    then some boot_source_page_size
    else if n == 14
    then some boot_source_page_count
    else if n == 15
    then some hypercall_caps
    else if n == 16
    then some interrupt_table_base
    else if n == 17
    then some interrupt_mask
    else if n == 18
    then some interrupt_mask_high
    else if n == 19
    then some interrupt_states
    else if n == 20
    then some interrupt_states_high
    else if n == 21
    then some interrupt_epc
    else if n == 22
    then some interrupt_eflags
    else if n == 23
    then some interrupt_cpu_control
    else if n == 24
    then some trap_cause
    else if n == 25
    then some trap_fault_addr
    else if n == 26
    then some trap_access
    else if n == 27
    then some trap_pc
    else if n == 28
    then some trap_aux
    else if n == 0x8000
    then some thread_pointer
    else none
