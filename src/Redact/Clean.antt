-- ===== src/Redact/Clean.antt =====
-- What is left of addresses and bearer tokens after `redact` (src/shadow_proxy/util/redact.py).
use llm_shadow_proxy.Base.{ℕ, ◌≡◌, refl, ap, ◌∙◌, Bool, false}
use llm_shadow_proxy.Base.Text.{Text}
use llm_shadow_proxy.Base.Json.{
  Value, null, bool, num, str, arr, obj, Items, nil, cons, Fields, end, field,
}
use llm_shadow_proxy.Redact.{
  sub, email_re, bearer_re, redacted_email, redacted_bearer, redact_str, redact, redact_items,
  redact_fields,
}
use llm_shadow_proxy.Redact.Cut.{found, found-sub_other, found-sub, sub-absent}
use llm_shadow_proxy.Redact.Shapes.{
  IsWordClass, scan-full, email-Cuts_email, email-Quiet_email, email-Quiet_bearer,
  email-Cuts_bearer, bearer-Cuts, bearer-Quiet,
}

-- A text in which neither pattern matches anywhere.
abbrev pub IsClean : (ℕ → Bool) → Text → Type 0
IsClean w s = (found (email_re w) s ≡ false) × (found bearer_re s ≡ false)

-- So is every text of a value, at any depth, but for the keys.
abbrev mutual
  pub AllClean : (ℕ → Bool) → Value → Type 0
  AllClean w (str s) = IsClean w s
  AllClean w (arr xs) = AllCleanItems w xs
  AllClean w (obj fs) = AllCleanFields w fs
  AllClean w null = Unit
  AllClean w (bool b) = Unit
  AllClean w (num n) = Unit

  pub AllCleanItems : (ℕ → Bool) → Items → Type 0
  AllCleanItems w nil = Unit
  AllCleanItems w (cons v xs) = AllClean w v × AllCleanItems w xs

  pub AllCleanFields : (ℕ → Bool) → Fields → Type 0
  AllCleanFields w end = Unit
  AllCleanFields w (field k v fs) = AllClean w v × AllCleanFields w fs

redact_str-IsClean : (w : ℕ → Bool) → IsWordClass w → (s : Text) → IsClean w (redact_str w s)
unfolding redact_str
redact_str-IsClean w word s =
    let t = sub (email_re w) redacted_email 0 s in
    (
      found-sub_other (email_re w) bearer_re redacted_bearer (email-Cuts_bearer w word)
          (email-Quiet_bearer w word) 0 t
          (found-sub (email_re w) redacted_email (email-Cuts_email w word)
            (email-Quiet_email w word) (scan-full _ _) 0 s),
      found-sub bearer_re redacted_bearer bearer-Cuts bearer-Quiet (scan-full _ _) 0 t,
    )

redact_str_absent : (w : ℕ → Bool) (s : Text) → IsClean w s → redact_str w s ≡ s
unfolding redact_str
redact_str_absent w s h =
    ap (sub bearer_re redacted_bearer 0) (sub-absent (email_re w) redacted_email s h.0)
    ∙ sub-absent bearer_re redacted_bearer s h.1

mutual
  unfolding redact

  redact-AllClean : (w : ℕ → Bool) → IsWordClass w → (v : Value) → AllClean w (redact w v)
  redact-AllClean w word null = tt
  redact-AllClean w word (bool b) = tt
  redact-AllClean w word (num n) = tt
  redact-AllClean w word (str s) = redact_str-IsClean w word s
  redact-AllClean w word (arr xs) = redact_items-AllCleanItems w word xs
  redact-AllClean w word (obj fs) = redact_fields-AllCleanFields w word fs

  redact_items-AllCleanItems :
      (w : ℕ → Bool) → IsWordClass w → (xs : Items) → AllCleanItems w (redact_items w xs)
  redact_items-AllCleanItems w word nil = tt
  redact_items-AllCleanItems w word (cons v xs) =
      (redact-AllClean w word v, redact_items-AllCleanItems w word xs)

  redact_fields-AllCleanFields :
      (w : ℕ → Bool) → IsWordClass w → (fs : Fields) → AllCleanFields w (redact_fields w fs)
  redact_fields-AllCleanFields w word end = tt
  redact_fields-AllCleanFields w word (field k v fs) =
      (redact-AllClean w word v, redact_fields-AllCleanFields w word fs)

mutual
  unfolding redact

  redact_absent : (w : ℕ → Bool) (v : Value) → AllClean w v → redact w v ≡ v
  redact_absent w null h = refl
  redact_absent w (bool b) h = refl
  redact_absent w (num n) h = refl
  redact_absent w (str s) h = ap str (redact_str_absent w s h)
  redact_absent w (arr xs) h = ap arr (redact_items_absent w xs h)
  redact_absent w (obj fs) h = ap obj (redact_fields_absent w fs h)

  redact_items_absent : (w : ℕ → Bool) (xs : Items) → AllCleanItems w xs → redact_items w xs ≡ xs
  redact_items_absent w nil h = refl
  redact_items_absent w (cons v xs) h = cc (redact_absent w v h.0, redact_items_absent w xs h.1)

  redact_fields_absent :
      (w : ℕ → Bool) (fs : Fields) → AllCleanFields w fs → redact_fields w fs ≡ fs
  redact_fields_absent w end h = refl
  redact_fields_absent w (field k v fs) h =
      cc (redact_absent w v h.0, redact_fields_absent w fs h.1)

-- Where `\w` is as documented: in no text of what `redact` returns, at any depth, does either pattern match
-- anywhere, not even across a replacement; and a second `redact` changes
-- nothing.
pub redact_lem :
    (w : ℕ → Bool)
    → IsWordClass w
    → (v : Value) → AllClean w (redact w v) × (redact w (redact w v) ≡ redact w v)
redact_lem w word v =
    let clean = redact-AllClean w word v in (clean, redact_absent w (redact w v) clean)
