-- ===== src/Format/Print.antt =====
-- What `oid_ntoa` prints: as much of the dotted text as its buffer holds.
use open_wrt_sdk.Common.{
  ℕ, suc, ◌+◌, ◌-◌, ◌≤◌, ◌<◌, ◌≡◌, sym, ap, ◌∙◌, Bool-cases, inl, inr, leb, List, [], ◌∷◌, ◌++◌,
  length, length-append, take, take_all, take-append_long, take-append_short, arith, append_assoc,
  append-nil,
}
use open_wrt_sdk.Types.{Oid}
use open_wrt_sdk.Format.{ntoa_size, ntoa_from, oid_ntoa}

-- A dot and the number, for each subid.
abbrev pub dotted : (ℕ → List ℕ) → List ℕ → List ℕ
dotted print [] = []
dotted print (s ∷ subids) = 0x2e ∷ (print s ++ dotted print subids)

ntoa_from_lem :
    (print : ℕ → List ℕ) (buffer subids : List ℕ)
    → length buffer < ntoa_size
    → ntoa_from print (length buffer) buffer subids
      ≡ take (ntoa_size - 1) (buffer ++ dotted print subids)
unfolding ntoa_from
ntoa_from_lem print buffer [] h =
    rw append-nil (sym (take_all (ntoa_size - 1) buffer (omega arith)))
ntoa_from_lem print buffer (s ∷ subids) h =
    let left : ntoa_size - length buffer - 1 ≡ 161 - length buffer = omega arith in
    elim (Bool-cases (leb ntoa_size (length buffer + suc (length (print s))))) [
      | inl full ↦
          let long : 161 - length buffer ≤ length (0x2e ∷ print s) = ground arith in
          let cut =
            take-append_long (161 - length buffer) (0x2e ∷ print s) (dotted print subids) long in
          let split =
            take-append_short 161 buffer (0x2e ∷ (print s ++ dotted print subids)) (omega arith) in
          rw (full, left) (sym (split ∙ ap (λ t. buffer ++ t) cut))
      | inr room ↦
          let short : length (0x2e ∷ print s) ≤ 161 - length buffer = ground arith in
          let whole = take_all (161 - length buffer) (0x2e ∷ print s) short in
          let longer = length-append buffer (0x2e ∷ print s) in
          let ih =
            ntoa_from_lem print (buffer ++ 0x2e ∷ print s) subids (omega (arith, longer, short)) in
          let joined = append_assoc buffer (0x2e ∷ print s) (dotted print subids) in
          rw (room, left, whole) (rw (longer, joined) at ih)
    ]

-- `oid_ntoa` prints the subids, each behind a dot, cut to the 161 characters that its buffer holds.
pub oid_ntoa_lem :
    (print : ℕ → List ℕ) (oid : Oid)
    → oid_ntoa print oid ≡ take (ntoa_size - 1) (dotted print oid.subid_list)
unfolding oid_ntoa
oid_ntoa_lem print oid = ntoa_from_lem print [] oid.subid_list (omega arith)
