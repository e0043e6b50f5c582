-- ===== src/UnitTests/Pure.antt =====
-- A load of a word changes nothing, whatever class the memory has.
use riscv_python.Prelude.{ℕ, ◌≡◌, refl, ap, ◌∙◌, none, some, List, [], ◌∷◌, arith}
use riscv_python.State.{
  RamClass, MmioTimer, Exec, memory_access_error, execution_terminated, machine_error, index_error,
  value_error, os_error, type_error, debug_break, System, Cpu, Ram, Peripheral, mmio_timer, Result,
  ok, err, plain, safe, safe_offset, mmio, safe_mmio,
}
use riscv_python.State.Leaves.{if-keeps}
use riscv_python.Peripherals.{BusCall, on_device, read32, in_range, skipped}
use riscv_python.Peripherals.Timer
use riscv_python.Ram.Bytes.{
  check, read_word, read_byte, read_word_view, read_word_bytes, or_access_error,
}
use riscv_python.Ram.Offset.{rebase}
use riscv_python.Ram.Plain
use riscv_python.Ram.Safe
use riscv_python.Ram.Offset
use riscv_python.Ram.Mmio
use riscv_python.Ram.SafeMmio
use riscv_python.Ram.Mmio.{on_ram, or_memory}
use riscv_python.Ram.Access.{load_word, dispatch}

or_access_error-same : (x : Result ℕ × Ram) → (or_access_error x).1 ≡ x.1
unfolding or_access_error
or_access_error-same (ok n, r) = refl
or_access_error-same (err memory_access_error, r) = refl
or_access_error-same (err execution_terminated, r) = refl
or_access_error-same (err machine_error, r) = refl
or_access_error-same (err index_error, r) = refl
or_access_error-same (err value_error, r) = refl
or_access_error-same (err os_error, r) = refl
or_access_error-same (err type_error, r) = refl
or_access_error-same (err (debug_break n), r) = refl

module _ (r : Ram) (addr : ℕ) where
  word_same : (a : ℕ) → (read_word a r).1 ≡ r
  unfolding read_word read_word_view read_word_bytes read_byte
  word_same a = ground arith

  plain_same : (Plain.load_word addr r).1 ≡ r
  unfolding Plain.load_word
  plain_same = or_access_error-same (read_word addr r) ∙ word_same addr

  safe_same : (Safe.load_word addr r).1 ≡ r
  unfolding Safe.load_word check
  safe_same = ground (arith, word_same addr)

  offset_same : (Offset.load_word addr r).1 ≡ r
  unfolding Offset.load_word rebase
  offset_same = grind (arith, word_same)

-- A device that answers is as before, and so is the processor.
abbrev Unchanged : List Peripheral → Cpu → BusCall ℕ → Type 0
Unchanged ps cpu none = Unit
Unchanged ps cpu (some (res, (ps', cpu'))) = (ps' ≡ ps) × (cpu' ≡ cpu)

timer_same : (addr : ℕ) (t : MmioTimer) (cpu : Cpu) → (Timer.read32 addr (t, cpu)).1 ≡ (t, cpu)
unfolding Timer.read32
timer_same addr t cpu = ground arith

skipped-Unchanged :
    (p : Peripheral) (ps : List Peripheral) (cpu : Cpu) (o : BusCall ℕ)
    → Unchanged ps cpu o
    → Unchanged (p ∷ ps) cpu (skipped p o)
skipped-Unchanged p ps cpu none h = tt
skipped-Unchanged p ps cpu (some (res, (ps', cpu'))) (h, hc) = (ap (λ l. p ∷ l) h, hc)

bus_same :
    (addr : ℕ) (ps : List Peripheral) (cpu : Cpu)
    → Unchanged ps cpu (on_device addr (read32 addr) ps cpu)
unfolding on_device read32
bus_same addr [] cpu = tt
bus_same addr (mmio_timer t ∷ ps) cpu =
    if-keeps (Unchanged (mmio_timer t ∷ ps) cpu) (in_range (mmio_timer t) addr) _ _
      (
        ap (λ (x : MmioTimer × Cpu). mmio_timer x.0 ∷ ps) (timer_same addr t cpu),
        ap (λ (x : MmioTimer × Cpu). x.1) (timer_same addr t cpu),
      )
      (skipped-Unchanged (mmio_timer t) ps cpu _ (bus_same addr ps cpu))

or_memory-same :
    (o : BusCall ℕ) (rest : Exec System ℕ) (s : System)
    → Unchanged s.ram.mmio_ranges s.cpu o
    → (rest s).1 ≡ s
    → (or_memory o rest s).1 ≡ s
unfolding or_memory
or_memory-same none rest s h hr = hr
or_memory-same (some (res, (ps, cpu))) rest s (h, hc) hr = rw (h, hc) refl

in_system_same : (m : Exec Ram ℕ) (s : System) → (m s.ram).1 ≡ s.ram → (on_ram m s).1 ≡ s
unfolding on_ram
in_system_same m s h = ap (λ (r : Ram). record s { ram = r }) h

-- A load of a word leaves the processor, the memory and the devices as they are, whether it succeeds
-- or raises.
pub load_word-same : (addr : ℕ) (s : System) → (load_word addr s).1 ≡ s
unfolding load_word Mmio.load_word SafeMmio.load_word
load_word-same addr s = by_class s.ram.ram_class
  where
    by_class :
        (c : RamClass)
        → (dispatch
            (Plain.load_word addr)
            (Safe.load_word addr)
            (Offset.load_word addr)
            (Mmio.load_word addr)
            (SafeMmio.load_word addr)
            c
            s).1
          ≡ s
    by_class plain = in_system_same (Plain.load_word addr) s (plain_same s.ram addr)
    by_class safe = in_system_same (Safe.load_word addr) s (safe_same s.ram addr)
    by_class safe_offset = in_system_same (Offset.load_word addr) s (offset_same s.ram addr)
    by_class mmio =
        or_memory-same _ _ s (bus_same addr s.ram.mmio_ranges s.cpu)
          (in_system_same (Plain.load_word addr) s (plain_same s.ram addr))
    by_class safe_mmio =
        or_memory-same _ _ s (bus_same addr s.ram.mmio_ranges s.cpu)
          (in_system_same (Safe.load_word addr) s (safe_same s.ram addr))
