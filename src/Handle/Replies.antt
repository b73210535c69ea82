-- ===== src/Handle/Replies.antt =====
-- What GET and GETNEXT answer, by version.
use open_wrt_sdk.Common.{
  ℕ, suc, ◌+◌, ◌≤◌, ◌<◌, ◌≡◌, refl, ◌∙◌, List, [], ◌∷◌, ◌++◌, map, append-nil, append_assoc, length,
  length-append, arith, false, some, none, ℤ, ◌=ℤ◌, All, if◌then◌else◌,
}
use open_wrt_sdk.Types.{
  max_nr_values, snmp_version_1, snmp_version_2c, status_no_such_name, Oid, Data, Value, Request,
  Response,
}
use open_wrt_sdk.Outcome.{Outcome, ok, ◌>>=◌}
use open_wrt_sdk.Handle.{
  add_value, Answer, found, missing, get_answer, get_loop, handle_snmp_get, next_entry,
  getnext_loop, handle_snmp_getnext, m_end_of_mib_view,
}
use native.Mathlib.Nat.{add-zero, zero-add}

-- A response with more values.
abbrev pub extended : Response → List Value → Response
extended r vs = record r { value_list = r.value_list ++ vs }

pub add_value_room :
    (v : Value) (r : Response)
    → length r.value_list < max_nr_values
    → add_value v r ≡ ok (extended r (v ∷ []))
unfolding add_value
add_value_room v r h = ground arith

-- The value that an answer puts in the response.
abbrev pub value_of : Oid → Answer → Value
value_of oid (found entry) = entry
value_of oid (missing content) = record { oid = oid; content = content }

-- An answer that does not end the loop.
abbrev pub Proceeds : ℤ → Answer → Type 0
Proceeds version (found entry) = Unit
Proceeds version (missing content) = (version =ℤ snmp_version_1) ≡ false

-- The two loops have one shape over their answers.
module _ (answer : Oid → Answer) where
  abbrev pub values_of : List Oid → List Value
  values_of oids = map (λ oid. value_of oid (answer oid)) oids

  answer_loop : ℤ → ℕ → List Oid → Response → Outcome Response
  answer_loop version i [] r = ok r
  answer_loop version i (oid ∷ oids) r = elim (answer oid) [
    | found entry ↦ (do r' ← add_value entry r; answer_loop version (i + 1) oids r')
    | missing content ↦
        if version =ℤ snmp_version_1
        then ok (record r { error_status = status_no_such_name; error_index = ℤ.pos i })
        else (do
          r' ← add_value (record { oid = oid; content = content }) r
          answer_loop version (i + 1) oids r')
  ]

  answer_loop_step :
      (version : ℤ) (i : ℕ) (oid : Oid) (oids : List Oid) (r : Response)
      → length r.value_list < max_nr_values
      → Proceeds version (answer oid)
      → answer_loop version i (oid ∷ oids) r
        ≡ answer_loop version (i + 1) oids (extended r (value_of oid (answer oid) ∷ []))
  unfolding answer_loop
  answer_loop_step version i oid oids r h p =
      ground (arith, add_value_room (value_of oid (answer oid)) r)

  answer_loop_front :
      (version : ℤ) (i : ℕ) (front rest : List Oid) (r : Response)
      → length r.value_list + length front ≤ max_nr_values
      → All (λ oid. Proceeds version (answer oid)) front
      → answer_loop version i (front ++ rest) r
        ≡ answer_loop version (i + length front) rest (extended r (values_of front))
  answer_loop_front version i [] rest r h p = rw (append-nil, add-zero)
  answer_loop_front version i (oid ∷ front) rest r h p =
      let v = value_of oid (answer oid) in
      let longer = length-append r.value_list (v ∷ []) in
      let count : i + suc (length front) ≡ i + 1 + length front = omega arith in
      answer_loop_step version i oid (front ++ rest) r (omega arith) p.0
      ∙ answer_loop_front version (i + 1) front rest (extended r (v ∷ [])) (omega (arith, longer))
          p.1
      ∙ rw (count, append_assoc r.value_list (v ∷ []) (values_of front))

  -- Every OID gets its value.
  answer_loop_whole :
      (version : ℤ) (oids : List Oid) (r : Response)
      → length r.value_list + length oids ≤ max_nr_values
      → All (λ oid. Proceeds version (answer oid)) oids
      → answer_loop version 0 oids r ≡ ok (extended r (values_of oids))
  answer_loop_whole version oids r h p =
      rw (append-nil oids) at (answer_loop_front version 0 oids [] r h p)
      ∙ unfold answer_loop in refl

  -- Version 1 stops at the first OID that is missing.
  answer_loop_missing :
      (front rest : List Oid) (oid : Oid) (content : Data) (r : Response)
      → length r.value_list + length front ≤ max_nr_values
      → All (λ o. Proceeds snmp_version_1 (answer o)) front
      → answer oid ≡ missing content
      → answer_loop snmp_version_1 0 (front ++ oid ∷ rest) r
        ≡ ok (record r {
          error_status = status_no_such_name;
          error_index = ℤ.pos (length front);
          value_list = r.value_list ++ values_of front;
        })
  answer_loop_missing front rest oid content r h p e =
      answer_loop_front snmp_version_1 0 front (oid ∷ rest) r h p
      ∙ rw zero-add (unfold answer_loop in rw (e, answer_loop))

get_loop-answer_loop :
    (mib : List Value) (version : ℤ) (i : ℕ) (oids : List Oid) (r : Response)
    → get_loop mib version i oids r ≡ answer_loop (get_answer mib) version i oids r
unfolding get_loop answer_loop add_value
get_loop-answer_loop mib version i [] r = refl
get_loop-answer_loop mib version i (oid ∷ oids) r = ground (
  arith,
  get_loop-answer_loop mib version (i + 1) oids
      (extended r (value_of oid (get_answer mib oid) ∷ [])),
)

abbrev pub next_answer : List Value → Oid → Answer
next_answer mib oid = elim (next_entry mib oid) [
  | none ↦ missing m_end_of_mib_view
  | some entry ↦ found entry
]

getnext_loop-answer_loop :
    (mib : List Value) (version : ℤ) (i : ℕ) (oids : List Oid) (r : Response)
    → getnext_loop mib version i oids r ≡ answer_loop (next_answer mib) version i oids r
unfolding getnext_loop answer_loop add_value
getnext_loop-answer_loop mib version i [] r = refl
getnext_loop-answer_loop mib version i (oid ∷ oids) r = ground (
  arith,
  getnext_loop-answer_loop mib version (i + 1) oids
      (extended r (value_of oid (next_answer mib oid) ∷ [])),
)

Proceeds-v2c : (a : Answer) → Proceeds snmp_version_2c a
Proceeds-v2c (found entry) = tt
Proceeds-v2c (missing content) = refl

Proceeds-All_v2c :
    (answer : Oid → Answer) (oids : List Oid) → All (λ o. Proceeds snmp_version_2c (answer o)) oids
Proceeds-All_v2c answer [] = tt
Proceeds-All_v2c answer (oid ∷ oids) = (Proceeds-v2c (answer oid), Proceeds-All_v2c answer oids)

module _ (mib : List Value) (request : Request) (r : Response) where
  -- In version 2c a GET that has room answers every OID, in order: by its entry, or by the value
  -- that says why there is none. The status stays as it was.
  pub handle_snmp_get_v2c :
      request.version ≡ snmp_version_2c
      → length r.value_list + length request.oid_list ≤ max_nr_values
      → handle_snmp_get mib request r
        ≡ ok (extended r (values_of (get_answer mib) request.oid_list))
  unfolding handle_snmp_get
  handle_snmp_get_v2c v h =
      get_loop-answer_loop mib request.version 0 request.oid_list r
      ∙ rw v (
          answer_loop_whole (get_answer mib) snmp_version_2c request.oid_list r h
            (Proceeds-All_v2c (get_answer mib) request.oid_list))

  -- In version 1 a GET stops at the first OID without an entry: noSuchName, with the index of that
  -- OID, counted from 0. The OIDs before it have entries, for which there is room.
  pub handle_snmp_get_v1_missing :
      (front rest : List Oid) (oid : Oid) (content : Data)
      → request.version ≡ snmp_version_1
      → request.oid_list ≡ front ++ oid ∷ rest
      → length r.value_list + length front ≤ max_nr_values
      → All (λ o. Proceeds snmp_version_1 (get_answer mib o)) front
      → get_answer mib oid ≡ missing content
      → handle_snmp_get mib request r
        ≡ ok (record r {
          error_status = status_no_such_name;
          error_index = ℤ.pos (length front);
          value_list = r.value_list ++ values_of (get_answer mib) front;
        })
  unfolding handle_snmp_get
  handle_snmp_get_v1_missing front rest oid content v l h p e =
      get_loop-answer_loop mib request.version 0 request.oid_list r
      ∙ rw (v, l) (answer_loop_missing (get_answer mib) front rest oid content r h p e)

  -- In version 2c a GETNEXT that has room answers every OID, in order: by the first entry behind it,
  -- or by endOfMibView.
  pub handle_snmp_getnext_v2c :
      request.version ≡ snmp_version_2c
      → length r.value_list + length request.oid_list ≤ max_nr_values
      → handle_snmp_getnext mib request r
        ≡ ok (extended r (values_of (next_answer mib) request.oid_list))
  unfolding handle_snmp_getnext
  handle_snmp_getnext_v2c v h =
      getnext_loop-answer_loop mib request.version 0 request.oid_list r
      ∙ rw v (
          answer_loop_whole (next_answer mib) snmp_version_2c request.oid_list r h
            (Proceeds-All_v2c (next_answer mib) request.oid_list))

  -- In version 1 a GETNEXT stops at the first OID behind which the MIB ends: noSuchName, with the
  -- index of that OID, counted from 0. The OIDs before it have entries behind them, for which
  -- there is room.
  pub handle_snmp_getnext_v1_missing :
      (front rest : List Oid) (oid : Oid)
      → request.version ≡ snmp_version_1
      → request.oid_list ≡ front ++ oid ∷ rest
      → length r.value_list + length front ≤ max_nr_values
      → All (λ o. Proceeds snmp_version_1 (next_answer mib o)) front
      → next_entry mib oid ≡ none
      → handle_snmp_getnext mib request r
        ≡ ok (record r {
          error_status = status_no_such_name;
          error_index = ℤ.pos (length front);
          value_list = r.value_list ++ values_of (next_answer mib) front;
        })
  unfolding handle_snmp_getnext
  handle_snmp_getnext_v1_missing front rest oid v l h p e =
      getnext_loop-answer_loop mib request.version 0 request.oid_list r
      ∙ rw (v, l)
          (answer_loop_missing (next_answer mib) front rest oid m_end_of_mib_view r h p
            (rw (e, next_answer)))
