-- ===== src/Format.antt =====
-- OIDs as text: `oid_ntoa` and `oid_aton` of src/utils.c. `snprintf` with "%d" is the parameter
-- `print`, and `strtoul` the parameter of that name: the number, and the text that it leaves.
pub mod Print
pub mod Back
pub mod Element
use open_wrt_sdk.Common.{
  ℕ, zero, suc, ◌+◌, ◌-◌, ◌*◌, ◌%◌, ◌^◌, Bool, ltb, leb, ◌==◌, not, ◌||◌, if◌then◌else◌, List, [],
  ◌∷◌, ◌++◌, length, take, get_or,
}
use open_wrt_sdk.Types.{max_nr_subids, Oid}
use open_wrt_sdk.Outcome.{Outcome, ok, fail, hang, ◌>>=◌, ◌>>◌, require}

-- `sizeof (buffer)` of `oid_ntoa`.
abbrev pub ntoa_size : ℕ
ntoa_size = max_nr_subids * 10 + 2

-- The loop: what stands in the buffer, and `len`, which counts what `snprintf` would have written.
unfoldable pub ntoa_from : (ℕ → List ℕ) → ℕ → List ℕ → List ℕ → List ℕ
ntoa_from print len buffer [] = buffer
ntoa_from print len buffer (s ∷ subids) =
    let written = buffer ++ take (ntoa_size - len - 1) (0x2e ∷ print s) in
    let rest = ntoa_from print (len + suc (length (print s))) written subids in
    if leb ntoa_size (len + suc (length (print s))) then written else rest

unfoldable pub oid_ntoa : (ℕ → List ℕ) → Oid → List ℕ
oid_ntoa print oid = ntoa_from print 0 [] oid.subid_list

-- The loop over the text, by the rounds that are left, with the subids that it has found.
unfoldable pub aton_from : (List ℕ → ℕ × List ℕ) → ℕ → List ℕ → List ℕ → Outcome (List ℕ)
aton_from strtoul zero text subids = hang
aton_from strtoul (suc rounds) [] subids = ok subids
aton_from strtoul (suc rounds) (c ∷ []) subids = fail
aton_from strtoul (suc rounds) (c ∷ d ∷ text) subids = do
  require (ltb (length subids) max_nr_subids)
  require (c == 0x2e)
  aton_from strtoul rounds (strtoul (d ∷ text)).1 (subids ++ (strtoul (d ∷ text)).0 % 2 ^ 32 ∷ [])

-- The test of the first two subids, in `unsigned int`.
abbrev pub is_oid : List ℕ → Bool
is_oid subids =
    not (ltb (length subids) 2 || ltb 0xff ((get_or subids 0 0 * 40 + get_or subids 1 0) % 2 ^ 32))

-- `fail` is the null pointer. Each round adds a subid, so a 17th one fails. The field
-- `encoded_length` of the static OID is never set.
unfoldable pub oid_aton : (List ℕ → ℕ × List ℕ) → List ℕ → Outcome Oid
oid_aton strtoul text = do
  subids ← aton_from strtoul 17 text []
  require (is_oid subids)
  ok (record { subid_list = subids; encoded_length = 0 })
