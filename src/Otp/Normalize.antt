-- ===== src/Otp/Normalize.antt =====
-- internal/otp/crypto.go: the normal forms of a channel, a purpose and an identifier, and the keyed
-- hashes. The HMAC of the standard library and `mail.ParseAddress` are parameters.
use dating_app_backend.Prelude.{
  ℕ, zero, suc, ◌+◌, Bool, false, not, ◌||◌, Option, none, some, [], ◌∷◌, ◌++◌, Text, codes,
  text_eq, is_empty, trim_space, to_upper, to_lower, if◌then◌else◌, Result, ok, err,
}
use dating_app_backend.Otp.Model.{
  Channel, whatsapp, email, Purpose, login, register, verify_phone, verify_email, reset, OtpError,
  invalid_channel, invalid_purpose, invalid_identifier, infrastructure, channel_text, purpose_text,
}

-- `rand.Int(rand.Reader, 10)`, by the position of the digit; none where the source fails.
unfoldable pub numeric_code_from : (ℕ → Option ℕ) → ℕ → ℕ → Result OtpError Text
numeric_code_from draw i zero = ok []
numeric_code_from draw i (suc n) =
    let rest = numeric_code_from draw (suc i) n in
    elim (draw i) [
      | none ↦ err infrastructure
      | some d ↦ elim rest [ ok s ↦ ok ((b'0' + d) ∷ s) | err e ↦ err e ]
    ]

unfoldable pub generate_numeric_code : (ℕ → Option ℕ) → ℕ → Result OtpError Text
unfolding numeric_code_from
generate_numeric_code draw length = numeric_code_from draw 0 length

unfoldable pub normalize_channel : Text → Result OtpError Channel
unfolding trim_space to_upper
normalize_channel channel =
    let t = to_upper (trim_space channel) in
    if text_eq t (channel_text whatsapp)
    then ok whatsapp
    else if text_eq t (channel_text email)
    then ok email
    else err invalid_channel

unfoldable pub normalize_purpose : Text → Result OtpError Purpose
unfolding trim_space to_upper
normalize_purpose purpose =
    let t = to_upper (trim_space purpose) in
    if is_empty (trim_space purpose)
    then ok login
    else if text_eq t (purpose_text login)
    then ok login
    else if text_eq t (purpose_text register)
    then ok register
    else if text_eq t (purpose_text verify_phone)
    then ok verify_phone
    else if text_eq t (purpose_text verify_email)
    then ok verify_email
    else if text_eq t (purpose_text reset)
    then ok reset
    else err invalid_purpose

-- `strings.HasPrefix(s, "+")`
abbrev pub has_plus : Text → Bool
has_plus [] = false
has_plus (c ∷ s) = text_eq (c ∷ []) (codes "+")

module _ (parse_address : Text → Bool) where
  unfoldable pub normalize_identifier : Channel → Text → Text → Result OtpError Text
  unfolding trim_space to_lower
  normalize_identifier whatsapp phone mail =
      let p = trim_space phone in
      if is_empty p || not (has_plus p) then err invalid_identifier else ok p
  normalize_identifier email phone mail =
      let m = to_lower (trim_space mail) in
      if is_empty m
      then err invalid_identifier
      else if parse_address m
      then ok m
      else err invalid_identifier

-- What a request or a verification is about.
pub record Target : Type 0 where
  pub channel : Channel
  pub purpose : Purpose
  pub identifier : Text

module _ (parse_address : Text → Bool) where
  abbrev pub with_identifier : Channel → Purpose → Result OtpError Text → Result OtpError Target
  with_identifier channel purpose (ok i) =
      ok (record { channel = channel; purpose = purpose; identifier = i })
  with_identifier channel purpose (err e) = err e

  -- The three calls that `Request` and `Verify` begin with: the first error stops them.
  unfoldable pub normalize_target : Text → Text → Text → Text → Result OtpError Target
  normalize_target raw_channel raw_purpose phone mail = elim (normalize_channel raw_channel) [
    | err e ↦ err e
    | ok channel ↦ elim (normalize_purpose raw_purpose) [
      | err e ↦ err e
      | ok purpose ↦
          with_identifier channel purpose (normalize_identifier parse_address channel phone mail)
    ]
  ]

-- What `HashCode` signs: the code, the identifier and the purpose.
abbrev pub code_payload : Text → Text → Purpose → Text
code_payload code identifier purpose =
    code ++ (codes "|" ++ (identifier ++ (codes "|" ++ purpose_text purpose)))

module _ (hmac_hex : Text → Text → Text) where
  unfoldable pub hash_identifier : Text → Text → Text
  hash_identifier secret identifier = hmac_hex secret identifier

  unfoldable pub hash_code : Text → Text → Text → Purpose → Text
  hash_code secret code identifier purpose = hmac_hex secret (code_payload code identifier purpose)

  unfoldable pub compare_code_hash : Text → Text → Text → Text → Purpose → Bool
  unfolding hash_code
  compare_code_hash expected secret code identifier purpose =
      text_eq expected (hash_code secret code identifier purpose)
