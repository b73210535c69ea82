-- ===== src/Format/Back.antt =====
-- `oid_aton` reads back what `oid_ntoa` prints.
use open_wrt_sdk.Common.{
  ℕ, zero, suc, ◌+◌, ◌*◌, ◌≤◌, ◌<◌, ◌^◌, ◌%◌, ◌≡◌, refl, ◌∙◌, List, [], ◌∷◌, ◌++◌, length,
  length-append, take_all, arith, append_assoc, append-nil, All, true, lt→ltb, ltb, ltb→lt, ◌==◌,
  get_or,
}
use open_wrt_sdk.Types.{max_nr_subids, Oid}
use open_wrt_sdk.Outcome.{ok, Safely, Safely-bind, Safely-require}
use open_wrt_sdk.Format.{oid_ntoa, aton_from, is_oid, oid_aton}
use open_wrt_sdk.Format.Print.{dotted, oid_ntoa_lem}

-- What `strtoul` reads of the text that `snprintf` prints: the whole number, up to the next dot.
pub record IsStrtoul (print : ℕ → List ℕ) (strtoul : List ℕ → ℕ × List ℕ) : Type 0 where
  pub printed : (s : ℕ) → s < 2 ^ 31 → 0 < length (print s)
  pub at_end : (s : ℕ) → s < 2 ^ 31 → strtoul (print s) ≡ (s, [])
  pub at_dot :
      (s : ℕ) (rest : List ℕ) → s < 2 ^ 31 → strtoul (print s ++ 0x2e ∷ rest) ≡ (s, 0x2e ∷ rest)

module _ (print : ℕ → List ℕ) (strtoul : List ℕ → ℕ × List ℕ) (is : IsStrtoul print strtoul) where
  read_number :
      (s : ℕ) (subids : List ℕ)
      → s < 2 ^ 31
      → strtoul (print s ++ dotted print subids) ≡ (s, dotted print subids)
  read_number s [] h = rw append-nil (is.at_end s h)
  read_number s (t ∷ subids) h = is.at_dot s (print t ++ dotted print subids) h

  -- One round of the loop.
  aton_from_step :
      (rounds s : ℕ) (text found : List ℕ)
      → 0 < length text
      → length found < max_nr_subids
      → aton_from strtoul (suc rounds) (0x2e ∷ text) found
        ≡ aton_from strtoul rounds (strtoul text).1 (found ++ (strtoul text).0 % 2 ^ 32 ∷ [])
  unfolding aton_from
  aton_from_step rounds s [] found some_text few = absurd (omega arith)
  aton_from_step rounds s (c ∷ text) found some_text few =
      rw (lt→ltb (length found) max_nr_subids few) refl

  aton_from-dotted :
      (rounds : ℕ) (subids found : List ℕ)
      → length subids < rounds
      → length found + length subids ≤ max_nr_subids
      → All (λ s. s < 2 ^ 31) subids
      → aton_from strtoul rounds (dotted print subids) found ≡ ok (found ++ subids)
  unfolding aton_from
  aton_from-dotted zero subids found enough few small = absurd (omega arith)
  aton_from-dotted (suc rounds) [] found enough few small = rw append-nil refl
  aton_from-dotted (suc rounds) (s ∷ subids) found enough few small =
      let text = print s ++ dotted print subids in
      let some_text : 0 < length text =
        omega (arith, length-append (print s) (dotted print subids), is.printed s small.0) in
      let word : s % 2 ^ 32 ≡ s = omega (arith, small.0) in
      let longer = length-append found (s ∷ []) in
      let ih =
        aton_from-dotted rounds subids (found ++ s ∷ []) (omega arith) (omega (arith, longer))
          small.1 in
      aton_from_step rounds s text found some_text (omega arith)
      ∙ rw (read_number s subids small.0, word) (rw (append_assoc found (s ∷ []) subids) at ih)

-- An OID of 2 to 16 subids below 2 ^ 31, the first two of which fit a byte, whose text fits the
-- buffer of `oid_ntoa`: `oid_aton` reads the same subids from that text. `strtoul` reads back what
-- `snprintf` prints.
pub oid_aton-oid_ntoa :
    (print : ℕ → List ℕ) (strtoul : List ℕ → ℕ × List ℕ) (oid : Oid)
    → IsStrtoul print strtoul
    → 2 ≤ length oid.subid_list
    → length oid.subid_list ≤ max_nr_subids
    → All (λ s. s < 2 ^ 31) oid.subid_list
    → get_or oid.subid_list 0 0 * 40 + get_or oid.subid_list 1 0 ≤ 0xff
    → length (dotted print oid.subid_list) ≤ 161
    → oid_aton strtoul (oid_ntoa print oid)
      ≡ ok (record { subid_list = oid.subid_list; encoded_length = 0 })
unfolding oid_aton
oid_aton-oid_ntoa print strtoul oid is two few small byte fits =
    let shown : oid_ntoa print oid ≡ dotted print oid.subid_list =
      oid_ntoa_lem print oid ∙ take_all 161 (dotted print oid.subid_list) fits in
    let found =
      aton_from-dotted print strtoul is 17 oid.subid_list [] (omega arith) (omega arith) small in
    let good : is_oid oid.subid_list ≡ true = ground arith in rw shown (rw found (rw good refl))

-- The loop ends within its rounds, whatever the text and whatever `strtoul` leaves of it.
aton_from_ends :
    (strtoul : List ℕ → ℕ × List ℕ) (rounds : ℕ) (text found : List ℕ)
    → max_nr_subids < rounds + length found
    → length found ≤ max_nr_subids
    → Safely (λ s. length s ≤ max_nr_subids) (aton_from strtoul rounds text found)
unfolding aton_from
aton_from_ends strtoul zero text found enough few = absurd (omega arith)
aton_from_ends strtoul (suc rounds) [] found enough few = few
aton_from_ends strtoul (suc rounds) (c ∷ []) found enough few = tt
aton_from_ends strtoul (suc rounds) (c ∷ d ∷ text) found enough few =
    let longer = length-append found ((strtoul (d ∷ text)).0 % 2 ^ 32 ∷ []) in
    Safely-require _ (ltb (length found) max_nr_subids) _ λ room.
      Safely-require _ (c == 0x2e) _ λ dot.
        aton_from_ends strtoul rounds (strtoul (d ∷ text)).1
          (found ++ (strtoul (d ∷ text)).0 % 2 ^ 32 ∷ []) (omega (arith, longer))
          (omega (arith, longer, ltb→lt (length found) max_nr_subids room))

-- Whatever the text, and whatever `strtoul` leaves of it, `oid_aton` ends; an OID that it returns
-- has 2 to 16 subids.
pub oid_aton_ends :
    (strtoul : List ℕ → ℕ × List ℕ) (text : List ℕ)
    → Safely
        (λ oid. (2 ≤ length oid.subid_list) × (length oid.subid_list ≤ max_nr_subids))
        (oid_aton strtoul text)
unfolding oid_aton
oid_aton_ends strtoul text =
    Safely-bind (λ s. length s ≤ max_nr_subids) _ (aton_from strtoul 17 text []) _
      (aton_from_ends strtoul 17 text [] (omega arith) (omega arith))
      λ subids few. Safely-require _ (is_oid subids) _ λ good. (ground arith, few)
