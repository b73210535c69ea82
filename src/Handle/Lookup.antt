-- ===== src/Handle/Lookup.antt =====
-- What a GET is answered, in terms of the entries of the MIB in their order: `mib_find` and the
-- tests behind it in `handle_snmp_get`.
use open_wrt_sdk.Common.{
  ℕ, ◌+◌, ◌≡◌, refl, sym, ap, ◌∙◌, List, [], ◌∷◌, ◌++◌, append-nil, length, length-append, take,
  drop, take-append, arith, true, false, Bool-cases, inl, inr, leb, ◌==◌, bytes_eq, tests,
  if◌then◌else◌,
}
use open_wrt_sdk.Types.{Oid, Value}
use open_wrt_sdk.Mib.{is_below}
use open_wrt_sdk.Mib.Build.Get.{mib_find_here, get_answer_next}
use open_wrt_sdk.Encode.Write.{take-append-drop}
use open_wrt_sdk.Mib.Build.Update.{bytes_eq_refl}
use open_wrt_sdk.Handle.{get_answer, found, missing, m_no_such_instance, m_no_such_object}
use open_wrt_sdk.Handle.Replies.{values_of, value_of}

-- The subids of an entry are those of the OID, and some more or none.
abbrev pub Extends : Oid → Value → Type 0
Extends oid v = (more : List ℕ) × (v.oid.subid_list ≡ oid.subid_list ++ more)

-- The exceptions of version 2c, by their tags in RFC 3416: the OID with the tag and no content.
abbrev pub absent : Oid → ℕ → Value
absent oid tag = record {
  oid = oid;
  content = record { buffer = tag ∷ 0x00 ∷ []; max_length = 2; encoded_length = 2 };
}

-- The value that answers an OID, by the first entry that extends it: noSuchObject (0x80) where
-- there is none, the entry where it has the OID, noSuchInstance (0x81) where it has one subid more,
-- and noSuchObject where it has several more.
pub data IsAnswer (oid : Oid) : List Value → Value → Type 0 where
  nothing : IsAnswer oid [] (absent oid 0x80)
  behind :
      {v : Value} {mib : List Value} {value : Value}
      → ¬ Extends oid v
      → IsAnswer oid mib value
      → IsAnswer oid (v ∷ mib) value
  entry :
      {v : Value} {mib : List Value} → v.oid.subid_list ≡ oid.subid_list → IsAnswer oid (v ∷ mib) v
  instance_above :
      {v : Value} {mib : List Value} (s : ℕ)
      → v.oid.subid_list ≡ oid.subid_list ++ s ∷ []
      → IsAnswer oid (v ∷ mib) (absent oid 0x81)
  object_above :
      {v : Value} {mib : List Value} (s t : ℕ) (more : List ℕ)
      → v.oid.subid_list ≡ oid.subid_list ++ s ∷ t ∷ more
      → IsAnswer oid (v ∷ mib) (absent oid 0x80)

-- One answer for each OID, in order.
abbrev pub AreAnswers : List Value → List Oid → List Value → Type 0
AreAnswers mib [] [] = Unit
AreAnswers mib [] (v ∷ vs) = ⊥
AreAnswers mib (oid ∷ oids) [] = ⊥
AreAnswers mib (oid ∷ oids) (v ∷ vs) = IsAnswer oid mib v × AreAnswers mib oids vs

bytes_eq-≡ : (xs ys : List ℕ) → bytes_eq xs ys ≡ true → xs ≡ ys
unfolding bytes_eq
bytes_eq-≡ [] [] h = refl
bytes_eq-≡ [] (y ∷ ys) h = cc
bytes_eq-≡ (x ∷ xs) [] h = cc
bytes_eq-≡ (x ∷ xs) (y ∷ ys) h = let ih = bytes_eq-≡ xs ys in ground (arith, ih)

is_below-Extends : (oid : Oid) (v : Value) → is_below oid v ≡ true → Extends oid v
unfolding is_below
is_below-Extends oid v h =
    let n = length oid.subid_list in
    let xs = v.oid.subid_list in
    let same : bytes_eq (take n xs) oid.subid_list ≡ true = ground arith in
    (drop n xs, sym (take-append-drop n xs) ∙ ap (λ l. l ++ drop n xs) (bytes_eq-≡ _ _ same))

Extends-is_below : (oid : Oid) (v : Value) → Extends oid v → is_below oid v ≡ true
unfolding is_below
Extends-is_below oid v (more, e) =
    let shorter : leb (length oid.subid_list) (length v.oid.subid_list) ≡ true =
      rw e (omega (tests, length-append oid.subid_list more)) in
    rw shorter (
      rw (e, take-append oid.subid_list more (length oid.subid_list) refl)
        (bytes_eq_refl oid.subid_list))

get_answer-first :
    (oid : Oid) (v : Value) (mib : List Value)
    → is_below oid v ≡ true
    → get_answer (v ∷ mib) oid ≡ (
        if length v.oid.subid_list == length oid.subid_list + 1
        then missing m_no_such_instance
        else if length v.oid.subid_list == length oid.subid_list
        then found v
        else missing m_no_such_object)
unfolding get_answer
get_answer-first oid v mib below = rw (get_answer, mib_find_here v mib oid below) refl

get_answer-here :
    (oid : Oid) (v : Value) (mib : List Value) (more : List ℕ)
    → v.oid.subid_list ≡ oid.subid_list ++ more
    → IsAnswer oid (v ∷ mib) (value_of oid (get_answer (v ∷ mib) oid))
get_answer-here oid v mib [] e =
    let same : v.oid.subid_list ≡ oid.subid_list = e ∙ append-nil oid.subid_list in
    let no : (length v.oid.subid_list == length oid.subid_list + 1) ≡ false =
      rw same (ground arith) in
    let yes : (length v.oid.subid_list == length oid.subid_list) ≡ true = rw same (ground arith) in
    rw (get_answer-first oid v mib (Extends-is_below oid v ([], e)), no, yes) (entry same)
get_answer-here oid v mib (s ∷ []) e =
    let yes : (length v.oid.subid_list == length oid.subid_list + 1) ≡ true =
      rw e (ground (arith, length-append oid.subid_list (s ∷ []))) in
    rw (get_answer-first oid v mib (Extends-is_below oid v (s ∷ [], e)), yes) (instance_above s e)
get_answer-here oid v mib (s ∷ t ∷ more) e =
    let size = length-append oid.subid_list (s ∷ t ∷ more) in
    let no : (length v.oid.subid_list == length oid.subid_list + 1) ≡ false =
      rw e (ground (arith, size)) in
    let no' : (length v.oid.subid_list == length oid.subid_list) ≡ false =
      rw e (ground (arith, size)) in
    rw (get_answer-first oid v mib (Extends-is_below oid v (s ∷ t ∷ more, e)), no, no')
      (object_above s t more e)

get_answer-IsAnswer :
    (oid : Oid) (mib : List Value) → IsAnswer oid mib (value_of oid (get_answer mib oid))
unfolding get_answer
get_answer-IsAnswer oid [] = nothing
get_answer-IsAnswer oid (v ∷ mib) = elim (Bool-cases (is_below oid v)) [
  | inl below ↦ let (more, e) = is_below-Extends oid v below in get_answer-here oid v mib more e
  | inr other ↦
      let not_this : ¬ Extends oid v = λ e. ground (arith, Extends-is_below oid v e) in
      rw (get_answer_next v mib oid other) (behind not_this (get_answer-IsAnswer oid mib))
]

-- The values that the handler puts in the response are the answers to the OIDs, in order.
pub values_of-AreAnswers :
    (mib : List Value) (oids : List Oid) → AreAnswers mib oids (values_of (get_answer mib) oids)
values_of-AreAnswers mib [] = tt
values_of-AreAnswers mib (oid ∷ oids) = (get_answer-IsAnswer oid mib, values_of-AreAnswers mib oids)
