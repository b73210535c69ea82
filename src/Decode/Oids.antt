-- ===== src/Decode/Oids.antt =====
-- The decoder of OIDs: it ends, and what it returns is an OID that the other code can rely on.
use open_wrt_sdk.Common.{
  ℕ, zero, suc, ◌+◌, ◌-◌, ◌*◌, ◌/◌, ◌%◌, ◌^◌, ◌≤◌, ◌<◌, ◌≡◌, ◌∙◌, List, [], ◌∷◌, ◌++◌, All,
  All-append, IsByte, length, length-append, arith, get_or, bit_and, not, ◌==◌, true, ltb, tests,
}
use open_wrt_sdk.Types.{Oid, max_nr_subids}
use open_wrt_sdk.Outcome.{byte_at, Ensures, Ensures-bind, Ensures-require}
use open_wrt_sdk.Decode.{
  has_room, decode_subid, decode_subids, oid_encoded_length, decode_snmp_element_value_oid,
}
use open_wrt_sdk.Decode.Values.{byte_at_ends}

abbrev pub IsSubid : ℕ → Type 0
IsSubid s = s < 2 ^ 32

-- The OIDs that the encoder and the MIB expect: 2 to 16 subids of 32 bits.
pub record IsOid (oid : Oid) : Type 0 where
  pub two : 2 ≤ length oid.subid_list
  pub fits : length oid.subid_list ≤ max_nr_subids
  pub subids : All IsSubid oid.subid_list

encoded_length_ends :
    (len : ℕ) → Ensures (λ e. (len + 2 ≤ e) × (e ≤ len + 4)) (oid_encoded_length len)
unfolding oid_encoded_length
encoded_length_ends len = ground arith

module _ (packet : List ℕ) (bytes : All IsByte packet) where
  decode_subid_ends :
      (len pos subid : ℕ)
      → subid < 2 ^ 32
      → Ensures
          (λ (r : ℕ × ℕ × ℕ).
            IsSubid r.0 × (r.1 ≤ len) × (r.2 + r.1 ≡ pos + suc len) × (r.2 ≤ length packet))
          (decode_subid packet (suc len) pos subid)
  unfolding decode_subid byte_at
  decode_subid_ends zero pos subid h = ground arith
  decode_subid_ends (suc len) pos subid h = ground (
    arith,
    decode_subid_ends len (pos + 1)
        ((subid * 2 ^ 7 % 2 ^ 32 + bit_and (get_or packet pos 0) 0x7f) % 2 ^ 32),
  )

  -- What the loop over the subids keeps.
  abbrev SubidsFit : ℕ → List ℕ × ℕ → Type 0
  SubidsFit end (subids, pos) =
      (2 ≤ length subids)
      × (length subids ≤ max_nr_subids)
      × All IsSubid subids
      × (pos ≡ end)
      × (pos ≤ length packet)

  decode_subids_ends :
      (rounds len pos : ℕ) (subids : List ℕ)
      → 2 ≤ length subids
      → length subids ≤ max_nr_subids
      → max_nr_subids < rounds + length subids
      → All IsSubid subids
      → pos ≤ length packet
      → Ensures (SubidsFit (pos + len)) (decode_subids rounds packet len pos subids)
  unfolding decode_subids
  decode_subids_ends rounds zero pos subids h2 h16 hr hs hp = (h2, h16, hs, omega arith, hp)
  decode_subids_ends zero (suc len) pos subids h2 h16 hr hs hp = absurd (omega arith)
  decode_subids_ends (suc rounds) (suc len) pos subids h2 h16 hr hs hp =
      Ensures-require _ (ltb (length subids) max_nr_subids) _ λ room.
        Ensures-bind _ _ (decode_subid packet (suc len) pos 0) _
          (decode_subid_ends len pos 0 (omega arith))
          λ r h.
            let longer : length (subids ++ r.0 ∷ []) ≡ length subids + 1 =
              omega (arith, length-append subids (r.0 ∷ [])) in
            let stop : r.2 + r.1 ≡ pos + suc len = h.2 in
            rw (← stop) (
              decode_subids_ends rounds r.1 r.2 (subids ++ r.0 ∷ []) (omega arith)
                (omega (tests, longer, room)) (omega arith)
                (All-append IsSubid subids (r.0 ∷ []) hs (h.0, tt)) h.3)

  -- On any packet of bytes the decoder of an OID ends, whatever the length. If it succeeds, the
  -- guard has let the length pass, the OID has 2 to 16 subids of 32 bits, `length` bytes were
  -- taken, all of them inside the array, and `encoded_length` is 2 to 4 more than `length`.
  pub oid_ends :
      (size pos len : ℕ)
      → Ensures
          (λ (r : Oid × ℕ).
            IsOid r.0
            × (r.1 ≡ pos + len)
            × (r.1 ≤ length packet)
            × (r.0.encoded_length ≤ len + 4)
            × (len + 2 ≤ r.0.encoded_length)
            × (has_room size pos len ≡ true))
          (decode_snmp_element_value_oid packet size pos len)
  unfolding decode_snmp_element_value_oid
  oid_ends size pos len = Ensures-require _ (has_room size pos len) _ λ room.
      Ensures-bind _ _ (oid_encoded_length len) _ (encoded_length_ends len) λ e he.
        Ensures-require _ (not (len == 0)) _ λ some_byte.
          Ensures-bind _ _ (byte_at packet pos) _ (byte_at_ends packet pos bytes) λ b hb.
            Ensures-require _ (bit_and b 0x80 == 0) _ λ _.
              Ensures-bind _ _ (decode_subids 17 packet (len - 1) (pos + 1) (b / 40 ∷ b % 40 ∷ []))
                _
                (decode_subids_ends 17 (len - 1) (pos + 1) (b / 40 ∷ b % 40 ∷ []) (omega arith)
                  (omega arith) (omega arith) (omega arith) (omega arith))
                λ r h. (
                  record { two = h.0; fits = h.1; subids = h.2 },
                  h.3 ∙ ground arith,
                  h.4,
                  he.1,
                  he.0,
                  room,
                )
