-- ===== src/Serial/Fields.antt =====
-- The parsing of an answer in src/parser_sdk.c, one write to the shared struct after the other.
use open_wrt_sdk.Common.{
  ℕ, zero, suc, ◌+◌, ◌≡◌, refl, sym, ap, fun_ext, ◌∙◌, List, [], ◌∷◌, ◌++◌, length, length-append,
  length-set, set, set_between, arith, append_assoc,
}
use open_wrt_sdk.Outcome.{
  Outcome, ok, fail, fault, hang, ◌>>=◌, >>=-assoc, byte_at, Whenever, Whenever-bind, Whenever-any,
}
use open_wrt_sdk.Sdk.{SdkParam, IsSdkParam}
use open_wrt_sdk.Sdk.Parse.{read_hex, read_chars, parse_status}
use open_wrt_sdk.Serial.Turns.{AreWords, IsStrtol, read_hex-small, byte_at-small}

-- What the parser writes, in the words of its comments.
pub data Field : Type 0 where
  internal_temperature : Field
  version_hardware : Field
  version_software : Field
  electromagnetic_relay : Field
  dry_contact_at : ℕ → Field

unfoldable pub write_field : (List ℕ → Outcome ℕ) → List ℕ → Field → SdkParam → Outcome SdkParam
write_field strtol answer internal_temperature sdk =
    read_hex strtol answer 40 >>= λ value. ok (record sdk { self_temp = value })
write_field strtol answer version_hardware sdk =
    read_hex strtol answer 6 >>= λ value. ok (record sdk { hw = value })
write_field strtol answer version_software sdk =
    read_hex strtol answer 8 >>= λ value. ok (record sdk { sw = value })
write_field strtol answer electromagnetic_relay sdk =
    byte_at answer 19 >>= λ char. ok (record sdk { relay = char })
write_field strtol answer (dry_contact_at i) sdk =
    byte_at answer (20 + i) >>= λ char. ok (record sdk { dry_contact = set sdk.dry_contact i char })

unfoldable pub write_fields :
    (List ℕ → Outcome ℕ) → List ℕ → List Field → SdkParam → Outcome SdkParam
write_fields strtol answer [] sdk = ok sdk
write_fields strtol answer (f ∷ fields) sdk =
    write_field strtol answer f sdk >>= write_fields strtol answer fields

-- The contacts from index `i` on.
abbrev pub contacts_from : ℕ → ℕ → List Field
contacts_from i zero = []
contacts_from i (suc rounds) = dry_contact_at i ∷ contacts_from (i + 1) rounds

abbrev pub fields : List Field
fields =
    internal_temperature
    ∷ version_hardware
    ∷ version_software
    ∷ electromagnetic_relay
    ∷ contacts_from 0 20

write_next :
    (m : Outcome ℕ) (f : ℕ → SdkParam) (rest : SdkParam → Outcome SdkParam)
    (g : ℕ → Outcome SdkParam)
    → ((v : ℕ) → rest (f v) ≡ g v)
    → ((m >>= λ v. ok (f v)) >>= rest) ≡ (m >>= g)
write_next m f rest g same = >>=-assoc m (λ v. ok (f v)) rest ∙ ap (λ k. m >>= k) (fun_ext same)

-- The next character goes behind those that are written.
read_on :
    (sdk : SdkParam) (done : List ℕ) (char : ℕ) (m : Outcome (List ℕ))
    → (m >>= λ chars. ok (record sdk { dry_contact = (done ++ char ∷ []) ++ chars })) ≡ (
        (m >>= λ chars. ok (char ∷ chars)) >>= λ chars.
        ok (record sdk { dry_contact = done ++ chars }))
read_on sdk done char (ok chars) =
    ap (λ d. ok (record sdk { dry_contact = d })) (append_assoc done (char ∷ []) chars)
read_on sdk done char fail = refl
read_on sdk done char fault = refl
read_on sdk done char hang = refl

module _ (strtol : List ℕ → Outcome ℕ) (answer : List ℕ) where
  next_contact :
      (sdk : SdkParam) (done rest : List ℕ) (r rounds i char : ℕ)
      → i ≡ length done
      → write_fields strtol answer
          (contacts_from (i + 1) rounds)
          (record sdk { dry_contact = (done ++ char ∷ []) ++ rest })
        ≡ (read_chars rounds (20 + (i + 1)) answer >>= λ chars.
            ok (record sdk { dry_contact = (done ++ char ∷ []) ++ chars }))
      → write_fields strtol answer
          (contacts_from (i + 1) rounds)
          (record sdk { dry_contact = set (done ++ r ∷ rest) i char })
        ≡ ((read_chars rounds (20 + i + 1) answer >>= λ chars. ok (char ∷ chars)) >>= λ chars.
            ok (record sdk { dry_contact = done ++ chars }))
  next_contact sdk done rest r rounds i char place ih =
      let placed : set (done ++ r ∷ rest) i char ≡ (done ++ char ∷ []) ++ rest =
        rw place (set_between done rest r char) ∙ sym (append_assoc done (char ∷ []) rest) in
      let next : 20 + (i + 1) ≡ 20 + i + 1 = omega arith in
      rw placed (rw next at ih) ∙ read_on sdk done char (read_chars rounds (20 + i + 1) answer)

  write_contacts :
      (sdk : SdkParam) (done rest : List ℕ) (rounds i : ℕ)
      → i ≡ length done
      → rounds ≡ length rest
      → write_fields strtol answer
          (contacts_from i rounds)
          (record sdk { dry_contact = done ++ rest })
        ≡ (read_chars rounds (20 + i) answer >>= λ chars.
            ok (record sdk { dry_contact = done ++ chars }))
  unfolding write_fields write_field read_chars
  write_contacts sdk done [] zero i place all = refl
  write_contacts sdk done (r ∷ rest) zero i place all = absurd (omega arith)
  write_contacts sdk done [] (suc rounds) i place all = absurd (omega arith)
  write_contacts sdk done (r ∷ rest) (suc rounds) i place all =
      >>=-assoc (byte_at answer (20 + i)) _
        (write_fields strtol answer (contacts_from (i + 1) rounds))
      ∙ ap (λ k. byte_at answer (20 + i) >>= k)
          (fun_ext λ char. next_contact sdk done rest r rounds i char place (
            write_contacts sdk (done ++ char ∷ []) rest rounds (i + 1)
              (omega (arith, place, length-append done (char ∷ []))) (omega (arith, all))))
      ∙ sym (
          >>=-assoc (byte_at answer (20 + i)) _
            (λ chars. ok (record sdk { dry_contact = done ++ chars })))

  -- The writes, one after the other, come to what the parser does at once: the same values, or the
  -- same failure. The struct has its 20 contacts.
  pub write_fields-parse_status :
      (sdk : SdkParam)
      → length sdk.dry_contact ≡ 20
      → write_fields strtol answer fields sdk ≡ parse_status strtol answer sdk
  unfolding write_fields write_field parse_status
  write_fields-parse_status sdk size = write_next (read_hex strtol answer 40) _ _ _ λ temp.
      write_next (read_hex strtol answer 6) _ _ _ λ hw.
        write_next (read_hex strtol answer 8) _ _ _ λ sw.
          write_next (byte_at answer 19) _ _ _ λ relay.
            write_contacts (record sdk { self_temp = temp; hw = hw; sw = sw; relay = relay }) []
              sdk.dry_contact 20 0 refl (sym size)

  pub write_field-IsSdkParam :
      (f : Field) (sdk : SdkParam)
      → IsStrtol strtol
      → AreWords answer
      → IsSdkParam sdk
      → Whenever IsSdkParam (write_field strtol answer f sdk)
  unfolding write_field
  write_field-IsSdkParam internal_temperature sdk is_strtol words is =
      let (_, rest) = is.words in
      Whenever-bind _ _ (read_hex strtol answer 40) _ (read_hex-small strtol is_strtol answer 40)
        λ value small. record {
          optical_relays = is.optical_relays;
          dry_contacts = is.dry_contacts;
          words = (small, rest);
        }
  write_field-IsSdkParam version_hardware sdk is_strtol words is =
      let (temp, (_, rest)) = is.words in
      Whenever-bind _ _ (read_hex strtol answer 6) _ (read_hex-small strtol is_strtol answer 6)
        λ value small. record {
          optical_relays = is.optical_relays;
          dry_contacts = is.dry_contacts;
          words = (temp, (small, rest));
        }
  write_field-IsSdkParam version_software sdk is_strtol words is =
      let (temp, (hw, (_, rest))) = is.words in
      Whenever-bind _ _ (read_hex strtol answer 8) _ (read_hex-small strtol is_strtol answer 8)
        λ value small. record {
          optical_relays = is.optical_relays;
          dry_contacts = is.dry_contacts;
          words = (temp, (hw, (small, rest)));
        }
  write_field-IsSdkParam electromagnetic_relay sdk is_strtol words is =
      let (temp, (hw, (sw, (_, rest)))) = is.words in
      Whenever-bind _ _ (byte_at answer 19) _ (byte_at-small answer 19 words) λ value small.
        record {
          optical_relays = is.optical_relays;
          dry_contacts = is.dry_contacts;
          words = (temp, (hw, (sw, (small, rest))));
        }
  write_field-IsSdkParam (dry_contact_at i) sdk is_strtol words is =
      Whenever-bind _ _ (byte_at answer (20 + i)) _ (Whenever-any (byte_at answer (20 + i)))
        λ value _. record {
          optical_relays = is.optical_relays;
          dry_contacts = length-set sdk.dry_contact i value ∙ is.dry_contacts;
          words = is.words;
        }
