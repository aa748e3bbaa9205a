-- ===== src/Ipc/Event/Bits.antt =====
-- What a thread asks of an event, bit by bit, os/rt-thread-nano/src/ipc.c.
use lltrisc_v.Prelude.{
  ℕ, ◌-◌, ◌^◌, ◌<◌, bit_and, ◌≡◌, ◌≢◌, ap, sym, ◌∙◌, ◌⊎◌, inl, inr, true, false, not, ◌&&◌, arith,
  ◌==◌, if◌then◌else◌, Bool-cases, ==→eq,
}
use lltrisc_v.Bits.{test_bit, and-le}
use lltrisc_v.Bits.Sets.{
  test_bit-bit_and, test_bit-without, some_bit, missing_bit, part_of, and-part, and-le_right,
  mask_0, mask_1, mask_2, bit_and-flip,
}
use lltrisc_v.Ipc.Event.{matched, unmatched, invalid, event_match, take_bits, recv_status}

-- RT_EVENT_FLAG_AND is bit 0 of the options, _OR bit 1 and _CLEAR bit 2; AND goes before OR.
abbrev pub WantsAll : (info : ℕ) → Type 0
WantsAll info = test_bit info 0 ≡ true

abbrev pub WantsSome : (info : ℕ) → Type 0
WantsSome info = (test_bit info 0 ≡ false) × (test_bit info 1 ≡ true)

abbrev pub WantsNothing : (info : ℕ) → Type 0
WantsNothing info = (test_bit info 0 ≡ false) × (test_bit info 1 ≡ false)

-- The set has what is wanted, and `bits` is what the thread gets: all that it wants, or those that are there.
abbrev pub IsMet : (info wanted set bits : ℕ) → Type 0
IsMet info wanted set bits =
    (WantsAll info × ((p : ℕ) → test_bit wanted p ≡ true → test_bit set p ≡ true) × (bits ≡ wanted))
    ⊎ (WantsSome info
        × ((p : ℕ) × (test_bit wanted p ≡ true) × (test_bit set p ≡ true))
        × ((p : ℕ) → test_bit bits p ≡ (test_bit wanted p && test_bit set p)))

-- A bit is missing of all that are wanted, or none of them is there.
abbrev pub IsUnmet : (info wanted set : ℕ) → Type 0
IsUnmet info wanted set =
    (WantsAll info × ((p : ℕ) × (test_bit wanted p ≡ true) × (test_bit set p ≡ false)))
    ⊎ (WantsSome info × ((p : ℕ) → (test_bit wanted p && test_bit set p) ≡ false))

-- The set when a thread has got its bits: with the option CLEAR they are taken out.
abbrev pub IsLeft : (info bits set set' : ℕ) → Type 0
IsLeft info bits set set' =
    (p : ℕ)
    → test_bit set' p
      ≡ (if test_bit info 2 then test_bit set p && not (test_bit bits p) else test_bit set p)

common :
    (wanted set : ℕ)
    → bit_and wanted set ≢ 0
    → (p : ℕ) × (test_bit wanted p ≡ true) × (test_bit set p ≡ true)
common wanted set n =
    let (p, e) = some_bit (bit_and wanted set) (bit_and wanted set) (omega arith) n in
    let both = test_bit-bit_and wanted set p in
    (p, ground (arith, both, e), ground (arith, both, e))

pub event_match-matched :
    (info wanted set bits : ℕ)
    → event_match info wanted set ≡ matched bits
    → IsMet info wanted set bits
unfolding event_match
event_match-matched info wanted set bits e = elim (Bool-cases (test_bit info 0)) [
  | inl all ↦ elim (Bool-cases (bit_and wanted set == wanted)) [
    | inl there ↦
        let same : bits ≡ wanted = ground (arith, mask_0 info, all, there, e) in
        inl (all, (λ p. part_of wanted set p (==→eq (bit_and wanted set) wanted there)), same)
    | inr missing ↦ absurd (ground (arith, mask_0 info, all, missing, e))
  ]
  | inr each ↦ elim (Bool-cases (test_bit info 1)) [
    | inl some_of ↦ elim (Bool-cases (bit_and wanted set == 0)) [
      | inl none_there ↦
          absurd (ground (arith, mask_0 info, mask_1 info, each, some_of, none_there, e))
      | inr there ↦
          let got : bits ≡ bit_and wanted set =
            ground (arith, mask_0 info, mask_1 info, each, some_of, there, e) in
          inr (
            (each, some_of),
            common wanted set (ground (arith, there)),
            (λ p. ap (λ x. test_bit x p) got ∙ test_bit-bit_and wanted set p),
          )
    ]
    | inr nothing ↦ absurd (ground (arith, mask_0 info, mask_1 info, each, nothing, e))
  ]
]

pub event_match-unmatched :
    (info wanted set : ℕ) → event_match info wanted set ≡ unmatched → IsUnmet info wanted set
unfolding event_match
event_match-unmatched info wanted set e = elim (Bool-cases (test_bit info 0)) [
  | inl all ↦ elim (Bool-cases (bit_and wanted set == wanted)) [
    | inl there ↦ absurd (ground (arith, mask_0 info, all, there, e))
    | inr missing ↦ inl (all, missing_bit wanted wanted set (omega arith) (ground (arith, missing)))
  ]
  | inr each ↦ elim (Bool-cases (test_bit info 1)) [
    | inl some_of ↦ elim (Bool-cases (bit_and wanted set == 0)) [
      | inl none_there ↦
          inr (
            (each, some_of),
            (λ p. and-part wanted set p (==→eq (bit_and wanted set) 0 none_there)),
          )
      | inr there ↦ absurd (ground (arith, mask_0 info, mask_1 info, each, some_of, there, e))
    ]
    | inr nothing ↦ absurd (ground (arith, mask_0 info, mask_1 info, each, nothing, e))
  ]
]

pub event_match-invalid :
    (info wanted set : ℕ) → event_match info wanted set ≡ invalid → WantsNothing info
unfolding event_match
event_match-invalid info wanted set e = ground (arith, mask_0 info, mask_1 info, e)

pub take_bits-IsLeft :
    (info bits set : ℕ)
    → set < 2 ^ 32
    → bits < 2 ^ 32
    → IsLeft info bits set (take_bits info bits set)
unfolding take_bits
take_bits-IsLeft info bits set h k p =
    ground (arith, mask_2 info, test_bit-without 32 set bits p h k)

pub take_bits-fits : (info bits set : ℕ) → set < 2 ^ 32 → take_bits info bits set < 2 ^ 32
unfolding take_bits
take_bits-fits info bits set h = ground (arith, h, and-le set set (2 ^ 32 - 1 - bits))

pub event_match-fits :
    (info wanted set bits : ℕ)
    → set < 2 ^ 32
    → event_match info wanted set ≡ matched bits
    → bits < 2 ^ 32
unfolding event_match
event_match-fits info wanted set bits h e = ground (arith, h, e, and-le_right wanted wanted set)

-- No set both meets and misses what is wanted.
pub IsMet-once :
    (info wanted set bits : ℕ)
    → IsMet info wanted set bits
    → IsUnmet info wanted set ⊎ WantsNothing info
    → false ≡ true
IsMet-once info wanted set bits (inl (all, there, e)) (inl (inl (all', (p, f, g)))) =
    sym g ∙ there p f
IsMet-once info wanted set bits (inl (all, there, e)) (inl (inr ((each, o), none_there))) =
    sym each ∙ all
IsMet-once info wanted set bits (inl (all, there, e)) (inr (each, o)) = sym each ∙ all
IsMet-once info wanted set bits (inr ((each, o), there, e)) (inl (inl (all, missing))) =
    sym each ∙ all
IsMet-once info wanted set bits (inr ((each, o), (p, f, g), e)) (inl (inr (w, none_there))) =
    ground (arith, none_there p, f, g)
IsMet-once info wanted set bits (inr ((each, o), there, e)) (inr (each', o')) = sym o' ∙ o

pub recv_status-IsMet :
    (option wanted set : ℕ)
    → recv_status option wanted set ≡ true
    → IsMet option wanted set (bit_and set wanted)
unfolding recv_status
recv_status-IsMet option wanted set e = elim (Bool-cases (test_bit option 0)) [
  | inl all ↦
      let same : bit_and set wanted ≡ wanted = ground (arith, mask_0 option, all, e) in
      inl (
        all,
        (λ p h. ground (arith, test_bit-bit_and set wanted p, ap (λ x. test_bit x p) same, h)),
        same,
      )
  | inr each ↦
      let some_of : test_bit option 1 ≡ true =
        ground (arith, mask_0 option, mask_1 option, each, e) in
      let there : bit_and set wanted ≢ 0 = ground (arith, mask_0 option, mask_1 option, each, e) in
      let (p, f, g) = common set wanted there in
      inr ((each, some_of), (p, g, f), (λ q. ground (arith, test_bit-bit_and set wanted q)))
]

pub recv_status-IsUnmet :
    (option wanted set : ℕ)
    → recv_status option wanted set ≡ false
    → IsUnmet option wanted set ⊎ WantsNothing option
unfolding recv_status
recv_status-IsUnmet option wanted set e = elim (Bool-cases (test_bit option 0)) [
  | inl all ↦
      let other : bit_and set wanted ≢ wanted = ground (arith, mask_0 option, all, e) in
      inl (
        inl (
          all,
          missing_bit wanted wanted set (omega arith)
              (λ x. other (bit_and-flip set set wanted (omega arith) ∙ x)),
        ))
  | inr each ↦ elim (Bool-cases (test_bit option 1)) [
    | inl some_of ↦
        let empty : bit_and set wanted ≡ 0 =
          ground (arith, mask_0 option, mask_1 option, each, some_of, e) in
        inl (inr ((each, some_of), (λ p. ground (arith, and-part set wanted p empty))))
    | inr nothing ↦ inr (each, nothing)
  ]
]

pub recv_status-IsLeft :
    (option wanted set : ℕ)
    → set < 2 ^ 32
    → wanted < 2 ^ 32
    → IsLeft option (bit_and set wanted) set (take_bits option wanted set)
recv_status-IsLeft option wanted set h k p =
    ground (arith, take_bits-IsLeft option wanted set h k p, test_bit-bit_and set wanted p)
