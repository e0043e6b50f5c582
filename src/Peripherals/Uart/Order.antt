-- ===== src/Peripherals/Uart/Order.antt =====
-- The order in which PtyUART delivers what arrives on its pseudo-terminal.
use riscv_python.Prelude.{
  ℕ, ◌+◌, ◌^◌, ◌<◌, ◌≡◌, ◌==◌, ap, sym, ◌∙◌, refl, true, Option, none, some, List, [], ◌∷◌, ◌++◌,
  if◌then◌else◌, ltb, lt→ltb, subst, arith, Bool-cases, inl, inr,
}
use mathlib.Core.List.{append_assoc, append-nil}
use riscv_python.State.{Result, ok, err, continue}
use riscv_python.Text.{All, All-append}
use riscv_python.Peripherals.Uart.{Pty, PtyUart, run, read32, write32, extend_rx, pop_rx}

-- What a guest program and the loop of the emulator do with the device.
pub data Access : Type 0 where
  polls : Access
  reads : ℕ → Access
  writes : ℕ → ℕ → Access

abbrev pub AreBytes : List ℕ → Type 0
AreBytes bytes = All (λ b. b < 2 ^ 8) bytes

abbrev pub ReadBytes : Result (Option (List ℕ)) → Type 0
ReadBytes (ok (some bytes)) = AreBytes bytes
ReadBytes _ = Unit

-- What the host gives are bytes.
pub record GivesBytes {H : Type 0} (pty : Pty H) : Type 0 where
  pub law : (n : ℕ) (h : H) → ReadBytes (pty.read n h).0

abbrev bytes_of : Result (Option (List ℕ)) → List ℕ
bytes_of (ok (some bytes)) = bytes
bytes_of _ = []

-- A value of the register RX is a character unless its bit 31 is set.
abbrev pub char_of : Result ℕ → List ℕ
char_of (ok b) = if ltb b (2 ^ 31) then b ∷ [] else []
char_of (err e) = []

module _ {H : Type 0} (pty : Pty H) where
  -- The host with a list of all that it has given.
  abbrev pub recorded : Pty (H × List ℕ)
  recorded = record {
    select = λ h. let (ready, h') = pty.select h.0 in (ready, (h', h.1));
    read = λ n h. let (r, h') = pty.read n h.0 in (r, (h', h.1 ++ bytes_of r));
    write = λ bytes h. let (r, h') = pty.write bytes h.0 in (r, (h', h.1));
  }

  abbrev pub Uart : Type 0
  Uart = PtyUart (H × List ℕ)

  -- The device after an access, and the characters that reads of RX have given.
  abbrev pub access : Access → Uart × List ℕ → Uart × List ℕ
  access polls (u, d) = ((run recorded u).1, d)
  access (reads addr) (u, d) =
      let (r, u') = read32 recorded addr u in
      (u', if addr == u.reg_base + 4 then d ++ char_of r else d)
  access (writes addr value) (u, d) = ((write32 recorded addr value u).1, d)

  unfoldable pub accesses : List Access → Uart × List ℕ → Uart × List ℕ
  accesses [] x = x
  accesses (a ∷ rest) x = accesses rest (access a x)

  record InOrder (u : Uart) (d : List ℕ) : Type 0 where
    order : u.host.1 ≡ d ++ u.rx_buf
    fits : AreBytes u.rx_buf

  extend-InOrder :
      (x : Result (Option (List ℕ)) × H) (u : Uart) (d : List ℕ)
      → ReadBytes x.0
      → InOrder u d
      → InOrder (continue (x.0, record u { host = (x.1, u.host.1 ++ bytes_of x.0) }) extend_rx).1 d
  extend-InOrder (err e, h) u d hb i = record {
    order = append-nil u.host.1 ∙ i.order;
    fits = i.fits;
  }
  extend-InOrder (ok none, h) u d hb i = record {
    order = append-nil u.host.1 ∙ i.order;
    fits = i.fits;
  }
  extend-InOrder (ok (some bs), h) u d hb i = record {
    order = ap (λ l. l ++ bs) i.order ∙ append_assoc d u.rx_buf bs;
    fits = All-append (λ b. b < 2 ^ 8) u.rx_buf bs i.fits hb;
  }

  run-InOrder :
      GivesBytes pty → (u : Uart) (d : List ℕ) → InOrder u d → InOrder (run recorded u).1 d
  unfolding run
  run-InOrder gives u d i =
      let h' = (pty.select u.host.0).1 in
      let polled = record u { host = (h', u.host.1) } in
      elim (Bool-cases (pty.select u.host.0).0) [
        | inl t ↦ rw t (
            extend-InOrder (pty.read 64 h') polled d (gives.law 64 h')
              (record { order = i.order; fits = i.fits }))
        | inr f ↦ rw f (record { order = i.order; fits = i.fits })
      ]

  pop-InOrder :
      (bs : List ℕ) (u : Uart) (d : List ℕ)
      → u.rx_buf ≡ bs
      → InOrder u d
      → InOrder (pop_rx bs u).1 (d ++ char_of (pop_rx bs u).0)
  pop-InOrder [] u d e i = record {
    order = i.order ∙ ap (λ l. l ++ u.rx_buf) (sym (append-nil d));
    fits = i.fits;
  }
  pop-InOrder (b ∷ bs) u d e i =
      let fits : AreBytes (b ∷ bs) = subst AreBytes e i.fits in
      let char : ltb b (2 ^ 31) ≡ true = lt→ltb b (2 ^ 31) (omega (arith, fits.0)) in
      record {
        order =
            i.order
            ∙ ap (λ l. d ++ l) e
            ∙ sym (append_assoc d (b ∷ []) bs)
            ∙ ap (λ t. (d ++ (if t then b ∷ [] else [])) ++ bs) (sym char);
        fits = fits.1;
      }

  -- What a read of RX leaves after the poll in it, which may raise.
  take-InOrder :
      (x : Result (Unit {0}) × Uart) (d : List ℕ)
      → InOrder x.1 d
      → (let (r, u) = continue x (λ _ u. pop_rx u.rx_buf u) in InOrder u (d ++ char_of r))
  take-InOrder (ok tt, u) d i = pop-InOrder u.rx_buf u d refl i
  take-InOrder (err e, u) d i = record {
    order = i.order ∙ ap (λ l. l ++ u.rx_buf) (sym (append-nil d));
    fits = i.fits;
  }

  access-InOrder :
      GivesBytes pty
      → (a : Access) (x : Uart × List ℕ) → InOrder x.0 x.1
      → InOrder (access a x).0 (access a x).1
  unfolding read32 write32
  access-InOrder gives polls (u, d) i = run-InOrder gives u d i
  access-InOrder gives (reads addr) (u, d) i = elim (Bool-cases (addr == u.reg_base + 4)) [
    | inl t ↦ rw t (take-InOrder (run recorded u) d (run-InOrder gives u d i))
    | inr f ↦ rw f (elim (Bool-cases (addr == u.reg_base)) [ inl t ↦ rw t i | inr g ↦ rw g i ])
  ]
  access-InOrder gives (writes addr value) (u, d) i = elim (Bool-cases (addr == u.reg_base)) [
    | inl t ↦ rw t (record { order = i.order; fits = i.fits })
    | inr f ↦ rw f i
  ]

  accesses-InOrder :
      GivesBytes pty
      → (script : List Access) (x : Uart × List ℕ) → InOrder x.0 x.1
      → InOrder (accesses script x).0 (accesses script x).1
  unfolding accesses
  accesses-InOrder gives [] x i = i
  accesses-InOrder gives (a ∷ rest) x i =
      accesses-InOrder gives rest (access a x) (access-InOrder gives a x i)

  -- The device as it is created, before its host has given anything.
  abbrev pub fresh : ℕ → H → Uart
  fresh reg_base h = record { reg_base = reg_base; rx_buf = []; host = (h, []) }

  -- After any sequence of polls by the loop and of reads and writes by the guest program, also where
  -- calls raise exceptions, on a host that gives bytes: the characters that the reads of RX have
  -- given, followed by those in the buffer, are all that the host has given, in its order.
  pub accesses-order :
      (script : List Access) (reg_base : ℕ) (h : H)
      → GivesBytes pty
      → (let (u, given) = accesses script (fresh reg_base h, []) in u.host.1 ≡ given ++ u.rx_buf)
  accesses-order script reg_base h gives =
      (accesses-InOrder gives script (fresh reg_base h, [])
        (record { order = refl; fits = tt })).order
