-- ===== src/Handle/Bulk.antt =====
-- What GETBULK answers: the non-repeaters once, then row after row.
use open_wrt_sdk.Common.{
  ℕ, zero, suc, ◌+◌, ◌≤◌, ◌≡◌, refl, ap, ◌∙◌, List, [], ◌∷◌, ◌++◌, map, append-nil, append_assoc,
  length, length-append, arith, true, false, some, none, pos_part, if◌then◌else◌, ◌==◌, take, drop,
  Bool-cases, inl, inr,
}
use open_wrt_sdk.Types.{max_nr_values, Oid, Value, Request, Response}
use open_wrt_sdk.Outcome.{ok}
use open_wrt_sdk.Handle.{
  next_entry, end_value, bulk_once, bulk_round, bulk_repeat, handle_snmp_getbulk,
}
use open_wrt_sdk.Handle.Replies.{extended, add_value_room}

module _ (mib : List Value) where
  -- The value for an OID, and the OID from which the next repetition goes on.
  abbrev pub next_value : Oid → Value
  next_value oid = elim (next_entry mib oid) [ some entry ↦ entry | none ↦ end_value oid ]

  abbrev pub next_oid : Oid → Oid
  next_oid oid = elim (next_entry mib oid) [ some entry ↦ entry.oid | none ↦ oid ]

  -- How many of the OIDs have an entry behind them.
  abbrev pub found_count : List Oid → ℕ
  found_count [] = 0
  found_count (oid ∷ oids) = elim (next_entry mib oid) [
    | some entry ↦ suc (found_count oids)
    | none ↦ found_count oids
  ]

  -- The rows of the repeaters: the last row is the first that finds no entry, or the one at which
  -- the repetitions are used up.
  abbrev pub rows : ℕ → List Oid → List Value
  rows zero oids = []
  rows (suc left) oids =
      let rest = rows left (map next_oid oids) in
      map next_value oids ++ (if found_count oids == 0 then [] else rest)

  bulk_once_lem :
      (oids : List Oid) (r : Response)
      → length r.value_list + length oids ≤ max_nr_values
      → bulk_once mib oids r ≡ ok (extended r (map next_value oids))
  unfolding bulk_once
  bulk_once_lem [] r h = rw append-nil
  bulk_once_lem (oid ∷ oids) r h =
      let v = next_value oid in
      rw (add_value_room v r (omega arith)) (
        bulk_once_lem oids (extended r (v ∷ []))
          (omega (arith, length-append r.value_list (v ∷ [])))
        ∙ rw (append_assoc r.value_list (v ∷ []) (map next_value oids)))

  bulk_round_lem :
      (oids : List Oid) (r : Response)
      → length r.value_list + length oids ≤ max_nr_values
      → bulk_round mib oids r
        ≡ ok (map next_oid oids, extended r (map next_value oids), found_count oids)
  unfolding bulk_round
  bulk_round_lem [] r h = rw append-nil
  bulk_round_lem (oid ∷ oids) r h = ground (
    arith,
    add_value_room (next_value oid) r,
    length-append r.value_list (next_value oid ∷ []),
    append_assoc r.value_list (next_value oid ∷ []) (map next_value oids),
    bulk_round_lem oids (extended r (next_value oid ∷ [])),
  )

  length-map-le : {B : Type 0} (f : Oid → B) (oids : List Oid) → length (map f oids) ≡ length oids
  length-map-le f [] = refl
  length-map-le f (oid ∷ oids) = ap suc (length-map-le f oids)

  bulk_repeat_step :
      (left : ℕ) (oids : List Oid) (r : Response)
      → length r.value_list + length oids ≤ max_nr_values
      → bulk_repeat mib (suc left) oids r ≡ elim (found_count oids == 0) [
        | true ↦ ok (extended r (map next_value oids))
        | false ↦ bulk_repeat mib left (map next_oid oids) (extended r (map next_value oids))
      ]
  unfolding bulk_repeat
  bulk_repeat_step left oids r h = rw (bulk_round_lem oids r h) refl

  none_left : (oids : List Oid) (r : Response) → bulk_repeat mib 0 oids r ≡ ok (extended r [])
  unfolding bulk_repeat
  none_left oids r = rw append-nil

  bulk_repeat_lem :
      (left : ℕ) (oids : List Oid) (r : Response)
      → length r.value_list + length (rows left oids) ≤ max_nr_values
      → bulk_repeat mib left oids r ≡ ok (extended r (rows left oids))
  bulk_repeat_lem zero oids r h = none_left oids r
  bulk_repeat_lem (suc left) oids r h = elim (Bool-cases (found_count oids == 0)) [
    | inl over ↦
        let bound : length r.value_list + length (map next_value oids ++ []) ≤ max_nr_values =
          rw over at h in
        rw (bulk_repeat_step left oids r (omega (arith, short [], bound)), over, append-nil)
    | inr more ↦
        let rest = rows left (map next_oid oids) in
        let bound : length r.value_list + length (map next_value oids ++ rest) ≤ max_nr_values =
          rw more at h in
        let longer = length-append r.value_list (map next_value oids) in
        rw (bulk_repeat_step left oids r (omega (arith, short rest, bound)), more)
          (bulk_repeat_lem left (map next_oid oids) (extended r (map next_value oids))
              (omega (arith, longer, length-append (map next_value oids) rest, bound))
            ∙ rw (append_assoc r.value_list (map next_value oids) rest))
  ]
    where
      short : (vs : List Value) → length oids ≤ length (map next_value oids ++ vs)
      short vs =
          omega (arith, length-map-le next_value oids, length-append (map next_value oids) vs)

  -- A GETBULK that has room answers the first OIDs, up to the number of non-repeaters, by the first
  -- entry behind each, and then the others row after row: each row has the first entry behind the
  -- OIDs of the row before (endOfMibView where there is none), and the rows stop after the one that
  -- finds no entry, or when the repetitions are used up. Negative numbers count as zero.
  pub handle_snmp_getbulk_lem :
      (request : Request) (r : Response)
      → length r.value_list
          + length (
              map next_value (take (pos_part request.non_repeaters) request.oid_list)
              ++ rows
                  (pos_part request.max_repetitions)
                  (drop (pos_part request.non_repeaters) request.oid_list))
        ≤ max_nr_values
      → handle_snmp_getbulk mib request r
        ≡ ok (
            extended r (
              map next_value (take (pos_part request.non_repeaters) request.oid_list)
              ++ rows
                  (pos_part request.max_repetitions)
                  (drop (pos_part request.non_repeaters) request.oid_list)))
  unfolding handle_snmp_getbulk
  handle_snmp_getbulk_lem request r h =
      rw (bulk_once_lem once r (omega (arith, length-append (map next_value once) again, same, h)))
        (bulk_repeat_lem (pos_part request.max_repetitions)
            (drop (pos_part request.non_repeaters) request.oid_list)
            (extended r (map next_value once))
            (omega (
              arith,
              h,
              length-append r.value_list (map next_value once),
              length-append (map next_value once) again,
            ))
          ∙ rw (append_assoc r.value_list (map next_value once) again))
    where
      once : List Oid
      once = take (pos_part request.non_repeaters) request.oid_list

      again : List Value
      again =
          rows (pos_part request.max_repetitions)
            (drop (pos_part request.non_repeaters) request.oid_list)

      same : length (map next_value once) ≡ length once
      same = length-map-le next_value once
