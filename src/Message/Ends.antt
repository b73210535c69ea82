-- ===== src/Message/Ends.antt =====
-- The request decoder ends on every packet, and the requests that it lets through are well formed.
use open_wrt_sdk.Common.{
  ℕ, zero, suc, ◌+◌, ◌≤◌, ◌<◌, ◌≡◌, ◌⊎◌, inl, inr, List, [], ◌∷◌, ◌++◌, All, All-append, IsByte,
  length, length-append, arith, not, ◌==◌, ◌&&◌, true, ltb, tests, ℤ, =ℤ_iff, IsInt, Bool-cases,
  if◌then◌else◌,
}
use open_wrt_sdk.Types.{
  Oid, Request, Client, max_nr_oids, max_string_size, snmp_version_1, snmp_version_2c,
}
use open_wrt_sdk.Ber
use open_wrt_sdk.Outcome.{Ensures, Ensures-bind, Ensures-require, Ensures-weaken, Ensures-of_Safely}
use open_wrt_sdk.Decode.{
  decode_snmp_element_type_length, decode_snmp_element_value_integer,
  decode_snmp_element_value_string, decode_snmp_element_value_oid, decode_snmp_element_value_void,
  is_element_type,
}
use open_wrt_sdk.Decode.Header.{HeaderFits, type_length_safe}
use open_wrt_sdk.Decode.Values.{integer_ends, string_ends, void_ends}
use open_wrt_sdk.Decode.Oids.{IsOid, oid_ends}
use open_wrt_sdk.Message.{
  bytes_left, decode_integer_element, is_version, decode_version, is_empty, decode_community,
  decode_varbind, decode_oid_element, decode_varbinds, decode_snmp_request,
}

-- The first two components are the text's bounds.
abbrev pub IsCommunity : List ℕ → Type 0
IsCommunity text = (0 < length text) × (length text < max_string_size) × All (λ b. 0 < b) text

-- What the handlers and the encoder may rely on.
pub record IsRequest (r : Request) : Type 0 where
  pub community : IsCommunity r.community
  pub type : is_element_type r.type ≡ true
  pub version : (r.version ≡ snmp_version_1) ⊎ (r.version ≡ snmp_version_2c)
  pub id : IsInt r.id
  pub non_repeaters : IsInt r.non_repeaters
  pub max_repetitions : IsInt r.max_repetitions
  pub few : length r.oid_list ≤ max_nr_oids
  pub oids : All IsOid r.oid_list

module _ (packet : List ℕ) (size : ℕ) (inside : size ≤ length packet)
    (bytes : All IsByte packet) where
  header_ends :
      (pos : ℕ) → Ensures (HeaderFits size pos) (decode_snmp_element_type_length packet size pos)
  header_ends pos =
      Ensures-of_Safely (HeaderFits size pos) (decode_snmp_element_type_length packet size pos)
        (type_length_safe packet size inside bytes pos)

  integer_element_ends :
      (pos : ℕ) → Ensures (λ (r : ℤ × ℕ). IsInt r.0) (decode_integer_element packet size pos)
  unfolding decode_integer_element
  integer_element_ends pos =
      Ensures-bind _ _ (decode_snmp_element_type_length packet size pos) _ (header_ends pos) λ h _.
        Ensures-require _ (h.0 == Ber.integer && not (h.1 == 0)) _ λ _.
          Ensures-weaken _ _ (decode_snmp_element_value_integer packet size h.2 h.1) (λ r p. p.0)
            (integer_ends packet bytes size h.2 h.1)

  is_version_cases : (v : ℤ) → is_version v ≡ true → (v ≡ snmp_version_1) ⊎ (v ≡ snmp_version_2c)
  is_version_cases v e = ground (arith, =ℤ_iff v snmp_version_1, =ℤ_iff v snmp_version_2c)

  version_ends :
      (pos : ℕ)
      → Ensures
          (λ (r : ℤ × ℕ). (r.0 ≡ snmp_version_1) ⊎ (r.0 ≡ snmp_version_2c))
          (decode_version packet size pos)
  unfolding decode_version
  version_ends pos =
      Ensures-bind _ _ (decode_snmp_element_type_length packet size pos) _ (header_ends pos) λ h _.
        Ensures-require _ (h.0 == Ber.integer && h.1 == 1) _ λ _.
          Ensures-bind _ _ (decode_snmp_element_value_integer packet size h.2 h.1) _
            (integer_ends packet bytes size h.2 h.1)
            λ r _. Ensures-require _ (is_version r.0) _ λ e. is_version_cases r.0 e

  community_ends :
      (pos : ℕ) → Ensures (λ (r : List ℕ × ℕ). IsCommunity r.0) (decode_community packet size pos)
  unfolding decode_community
  community_ends pos =
      Ensures-bind _ _ (decode_snmp_element_type_length packet size pos) _ (header_ends pos) λ h _.
        Ensures-require _ (h.0 == Ber.octet_string && ltb h.1 max_string_size) _ λ short.
          let short' : h.1 < max_string_size = ground arith in
          Ensures-bind _ _ (decode_snmp_element_value_string packet size h.2 h.1 max_string_size) _
            (string_ends packet bytes size h.2 h.1 max_string_size (omega arith) short')
            λ r p. Ensures-require _ (not (is_empty r.0)) _ λ e. (some_text r.0 e, omega arith, p.1)
    where
      some_text : (text : List ℕ) → not (is_empty text) ≡ true → 0 < length text
      some_text [] e = cc
      some_text (b ∷ text) e = omega arith

  oid_element_ends :
      (pos : ℕ) → Ensures (λ (r : Oid × ℕ). IsOid r.0) (decode_oid_element packet size pos)
  unfolding decode_oid_element
  oid_element_ends pos =
      Ensures-bind _ _ (decode_snmp_element_type_length packet size pos) _ (header_ends pos) λ h _.
        Ensures-require _ (h.0 == Ber.oid && not (h.1 == 0)) _ λ _.
          Ensures-weaken _ _ (decode_snmp_element_value_oid packet size h.2 h.1) (λ r p. p.0)
            (oid_ends packet bytes size h.2 h.1)

  varbind_ends : (pos : ℕ) → Ensures (λ (r : Oid × ℕ). IsOid r.0) (decode_varbind packet size pos)
  unfolding decode_varbind
  varbind_ends pos =
      Ensures-bind _ _ (decode_snmp_element_type_length packet size pos) _ (header_ends pos) λ h _.
        Ensures-require _ (h.0 == Ber.sequence && not (h.1 == 0)) _ λ _.
          Ensures-bind _ _ (decode_oid_element packet size h.2) _ (oid_element_ends h.2) λ o p.
            Ensures-bind _ _ (decode_snmp_element_type_length packet size o.1) _ (header_ends o.1)
              λ v _. Ensures-require _ (if v.0 == Ber.null then v.1 == 0 else not (v.1 == 0)) _ λ _.
                Ensures-bind _ _ (decode_snmp_element_value_void size v.2 v.1) _
                  (void_ends size v.2 v.1) λ _ _. p

  varbinds_ends :
      (rounds pos : ℕ) (oids : List Oid)
      → max_nr_oids < rounds + length oids
      → length oids ≤ max_nr_oids
      → All IsOid oids
      → Ensures
          (λ (l : List Oid). (length l ≤ max_nr_oids) × All IsOid l)
          (decode_varbinds rounds packet size pos oids)
  unfolding decode_varbinds
  varbinds_ends zero pos oids hr h16 h = absurd (omega arith)
  varbinds_ends (suc rounds) pos oids hr h16 h = elim (Bool-cases (ltb pos size)) [
    | inl more ↦ rw more (
        Ensures-require _ (ltb (length oids) max_nr_oids) _ λ room.
          Ensures-bind _ _ (decode_varbind packet size pos) _ (varbind_ends pos) λ r p.
            let longer : length (oids ++ r.0 ∷ []) ≡ length oids + 1 =
              omega (arith, length-append oids (r.0 ∷ [])) in
            varbinds_ends rounds r.1 (oids ++ r.0 ∷ []) (omega arith) (omega (tests, longer, room))
              (All-append IsOid oids (r.0 ∷ []) h (p, tt)))
    | inr done ↦ rw done (h16, h)
  ]

-- Whatever bytes a packet holds, the request decoder ends, and a request that it returns is well
-- formed: a version that is known, a community of 1 to 63 bytes with no NUL among them, numbers
-- that fit an `int`, and at most 16 OIDs, each of 2 to 16 subids of 32 bits.
pub decode_snmp_request_ends :
    (client : Client)
    → client.size ≤ length client.packet
    → All IsByte client.packet
    → Ensures IsRequest (decode_snmp_request client)
unfolding decode_snmp_request
decode_snmp_request_ends client inside bytes =
    Ensures-bind _ _ (decode_snmp_element_type_length packet size 0) _ (header 0) λ outer _.
      Ensures-require _ (outer.0 == Ber.sequence && outer.1 == bytes_left size outer.2) _ λ _.
        Ensures-bind _ _ (decode_version packet size outer.2) _
          (version_ends packet size inside bytes outer.2)
          λ version hv.
            Ensures-bind _ _ (decode_community packet size version.1) _
              (community_ends packet size inside bytes version.1)
              λ community hc.
                Ensures-bind _ _ (decode_snmp_element_type_length packet size community.1) _
                  (header community.1)
                  λ pdu hp. Ensures-require _ (pdu.1 == bytes_left size pdu.2) _ λ _.
                    Ensures-bind _ _ (decode_integer_element packet size pdu.2) _ (int pdu.2)
                      λ id hi.
                        Ensures-bind _ _ (decode_integer_element packet size id.1) _ (int id.1)
                          λ n hn.
                            Ensures-bind _ _ (decode_integer_element packet size n.1) _ (int n.1)
                              λ m hm.
                                Ensures-bind _ _ (decode_snmp_element_type_length packet size m.1) _
                                  (header m.1)
                                  λ list _.
                                    Ensures-require _
                                      (list.0 == Ber.sequence && list.1 == bytes_left size list.2) _
                                      λ _.
                                        Ensures-bind _ _ (decode_varbinds 17 packet size list.2 [])
                                          _
                                          (varbinds_ends packet size inside bytes 17 list.2 []
                                            (omega arith) (omega arith) tt)
                                          λ oids ho. record {
                                            community = hc;
                                            type = hp.0;
                                            version = hv;
                                            id = hi;
                                            non_repeaters = hn;
                                            max_repetitions = hm;
                                            few = ho.0;
                                            oids = ho.1;
                                          }
  where
    open client use {packet, size}

    header :
        (pos : ℕ) → Ensures (HeaderFits size pos) (decode_snmp_element_type_length packet size pos)
    header = header_ends packet size inside bytes

    int : (pos : ℕ) → Ensures (λ (r : ℤ × ℕ). IsInt r.0) (decode_integer_element packet size pos)
    int = integer_element_ends packet size inside bytes
