-- ===== src/Invariant/Access.antt =====
-- A load or store on any of the five RAM classes keeps the state well formed.
use riscv_python.Prelude.{ℕ, ◌%◌, ◌^◌, Bool, none, some, arith}
use riscv_python.State.{System, Ram, RamClass, plain, safe, safe_offset, mmio, safe_mmio, Exec}
use riscv_python.State.Leaves.{Leaves, Any}
use riscv_python.Peripherals.{BusCall}
use riscv_python.Ram.Plain
use riscv_python.Ram.Safe
use riscv_python.Ram.Mmio
use riscv_python.Ram.Mmio.{on_ram, or_memory}
use riscv_python.Ram.SafeMmio
use riscv_python.Ram.Access.{
  load_byte, load_half, load_word, store_byte, store_half, store_word, dispatch,
}
use riscv_python.Invariant.Defs.{IsWf, IsWfRam}
use riscv_python.Invariant.Bytes.{Fits, FitsHalf}
use riscv_python.Invariant.Classes
use riscv_python.Invariant.Devices.{BusLeaves, bus_read, bus_write}

module _ {A : Type 0} {Q : A → Type 0} (s : System) (h : IsWf s) where
  pub on_ram-Leaves : (m : Exec Ram A) → Leaves IsWfRam Q (m s.ram) → Leaves IsWf Q (on_ram m s)
  unfolding on_ram
  on_ram-Leaves m l = record { state = record { cpu = h.cpu; ram = l.state }; value = l.value }

  or_memory-Leaves :
      (b : BusCall A) (m : Exec System A)
      → BusLeaves Q b
      → Leaves IsWf Q (m s)
      → Leaves IsWf Q (or_memory b m s)
  unfolding or_memory
  or_memory-Leaves none m hb hm = hm
  or_memory-Leaves (some (r, (ps, cpu))) m hb hm = record {
    state = record {
      cpu = hb.state.1;
      ram = record { memory = h.ram.memory; devices = hb.state.0 };
    };
    value = hb.value;
  }

module _ {A : Type 0} (Q : A → Type 0) (s : System) (h : IsWf s) where
  pub dispatch-Leaves :
      (c : RamClass) (a b d : Exec Ram A) (e f : Exec System A)
      → Leaves IsWfRam Q (a s.ram)
      → Leaves IsWfRam Q (b s.ram)
      → Leaves IsWfRam Q (d s.ram)
      → Leaves IsWf Q (e s)
      → Leaves IsWf Q (f s)
      → Leaves IsWf Q (dispatch a b d e f c s)
  dispatch-Leaves plain a b d e f ha hb hd he hf = on_ram-Leaves s h a ha
  dispatch-Leaves safe a b d e f ha hb hd he hf = on_ram-Leaves s h b hb
  dispatch-Leaves safe_offset a b d e f ha hb hd he hf = on_ram-Leaves s h d hd
  dispatch-Leaves mmio a b d e f ha hb hd he hf = he
  dispatch-Leaves safe_mmio a b d e f ha hb hd he hf = hf

module _ (addr : ℕ) (s : System) (h : IsWf s) where
  pub load_byte-Leaves : (signed : Bool) → Leaves IsWf Any (load_byte addr signed s)
  unfolding load_byte Mmio.load_byte SafeMmio.load_byte
  load_byte-Leaves signed =
      let p = Classes.plain_load_byte addr s.ram h.ram signed in
      let c = Classes.safe_load_byte addr s.ram h.ram signed in
      dispatch-Leaves Any s h s.ram.ram_class _ _ _ _ _ p c
        (Classes.offset_load_byte addr s.ram h.ram signed)
        (on_ram-Leaves s h (Plain.load_byte addr signed) p)
        (on_ram-Leaves s h (Safe.load_byte addr signed) c)

  pub load_half-Leaves : (signed : Bool) → Leaves IsWf FitsHalf (load_half addr signed s)
  unfolding load_half Mmio.load_half SafeMmio.load_half
  load_half-Leaves signed =
      let p = Classes.plain_load_half addr s.ram h.ram signed in
      let c = Classes.safe_load_half addr s.ram h.ram signed in
      dispatch-Leaves FitsHalf s h s.ram.ram_class _ _ _ _ _ p c
        (Classes.offset_load_half addr s.ram h.ram signed)
        (on_ram-Leaves s h (Plain.load_half addr signed) p)
        (on_ram-Leaves s h (Safe.load_half addr signed) c)

  pub load_word-Leaves : Leaves IsWf (Fits 32) (load_word addr s)
  unfolding load_word Mmio.load_word SafeMmio.load_word
  load_word-Leaves =
      let p = Classes.plain_load_word addr s.ram h.ram in
      let c = Classes.safe_load_word addr s.ram h.ram in
      let bus = bus_read addr s.ram.mmio_ranges s.cpu (h.ram.devices, h.cpu) in
      dispatch-Leaves (Fits 32) s h s.ram.ram_class _ _ _ _ _ p c
        (Classes.offset_load_word addr s.ram h.ram)
        (or_memory-Leaves s h _ _ bus (on_ram-Leaves s h (Plain.load_word addr) p))
        (or_memory-Leaves s h _ _ bus (on_ram-Leaves s h (Safe.load_word addr) c))

  pub store_byte-Leaves : (v : ℕ) → Leaves IsWf Any (store_byte addr v s)
  unfolding store_byte Mmio.store_byte SafeMmio.store_byte
  store_byte-Leaves v =
      let p = Classes.plain_store_byte addr s.ram h.ram v in
      let c = Classes.safe_store_byte addr s.ram h.ram v in
      dispatch-Leaves Any s h s.ram.ram_class _ _ _ _ _ p c
        (Classes.offset_store_byte addr s.ram h.ram v)
        (on_ram-Leaves s h (Plain.store_byte addr v) p)
        (on_ram-Leaves s h (Safe.store_byte addr v) c)

  pub store_half-Leaves : (v : ℕ) → Leaves IsWf Any (store_half addr v s)
  unfolding store_half Mmio.store_half SafeMmio.store_half
  store_half-Leaves v =
      let p = Classes.plain_store_half addr s.ram h.ram v in
      let c = Classes.safe_store_half addr s.ram h.ram v in
      dispatch-Leaves Any s h s.ram.ram_class _ _ _ _ _ p c
        (Classes.offset_store_half addr s.ram h.ram v)
        (on_ram-Leaves s h (Plain.store_half addr v) p)
        (on_ram-Leaves s h (Safe.store_half addr v) c)

  pub store_word-Leaves : (v : ℕ) → Leaves IsWf Any (store_word addr v s)
  unfolding store_word Mmio.store_word SafeMmio.store_word
  store_word-Leaves v =
      let w = v % 2 ^ 32 in
      let p = Classes.plain_store_word addr s.ram h.ram in
      let c = Classes.safe_store_word addr s.ram h.ram in
      let bus = bus_write addr w s.ram.mmio_ranges s.cpu (omega arith) (h.ram.devices, h.cpu) in
      dispatch-Leaves Any s h s.ram.ram_class _ _ _ _ _ (p v) (c v)
        (Classes.offset_store_word addr s.ram h.ram v)
        (or_memory-Leaves s h _ _ bus (on_ram-Leaves s h (Plain.store_word addr w) (p w)))
        (or_memory-Leaves s h _ _ bus (on_ram-Leaves s h (Safe.store_word addr w) (c w)))
