-- ===== src/Http/Laws.antt =====
-- What the models of context.go and r.go rely on of fasthttp, as its documentation has it, and what
-- the accessors leave behind.
use r.Common.{
  ℕ, suc, str_eq, Bool-cases, ◌<◌, String, ◌≡◌, refl, ap, ◌∙◌, Bool, true, false, Option, none,
  some, Option-cases, inl, inr, ◌&&◌, Option, none, some, List, [], ◌∷◌, if◌then◌else◌, inl, inr,
  arith,
}
use r.Common.Int.{ℤ, pos}
use r.Http.{Fasthttp, World, World, error_response, json, with_request_id}
use r.Http.Names.{same_name, same_fold, is_plain}

-- A header, the status and the body are kept apart; `stored` is a header's value as it is kept, with
-- line breaks replaced.
pub record IsFasthttp (H : Fasthttp) : Type 0 where
  pub stored : String → String
  pub header-set_header :
      (key value other : String) (s : H.Response)
      → is_plain key ≡ true
      → H.header other (H.set_header key value s)
        ≡ (if same_name key other then stored value else H.header other s)
  pub header-set_status :
      (other : String) (code : ℤ) (s : H.Response)
      → H.header other (H.set_status code s) ≡ H.header other s
  pub header-set_body :
      (other text : String) (s : H.Response) → H.header other (H.set_body text s) ≡ H.header other s
  pub status-set_header :
      (key value : String) (s : H.Response)
      → is_plain key ≡ true
      → H.status (H.set_header key value s) ≡ H.status s
  pub status-set_status :
      (code : ℕ) (s : H.Response) → 0 < code → H.status (H.set_status (pos code) s) ≡ pos code
  pub status-set_body : (text : String) (s : H.Response) → H.status (H.set_body text s) ≡ H.status s
  pub body-set_header :
      (key value : String) (s : H.Response)
      → is_plain key ≡ true
      → H.body (H.set_header key value s) ≡ H.body s
  pub body-set_status : (code : ℤ) (s : H.Response) → H.body (H.set_status code s) ≡ H.body s
  pub body-set_body : (text : String) (s : H.Response) → H.body (H.set_body text s) ≡ text

-- Headers to set, in their order.
abbrev pub Headers : Type 0
Headers = List (String × String)

abbrev pub all_plain : Headers → Bool
all_plain [] = true
all_plain (entry ∷ hs) = is_plain entry.0 && all_plain hs

-- The last value set for a name, or what was there.
abbrev pub value_after : (String → String) → Headers → String → String → String
value_after stored [] other old = old
value_after stored (entry ∷ hs) other old =
    value_after stored hs other (if same_name entry.0 other then stored entry.1 else old)

both_true : (a b : Bool) → (a && b) ≡ true → (a ≡ true) × (b ≡ true)
both_true true b h = (refl, h)
both_true false b h = ground arith

-- JSON leaves the body as it is where the encoder has no text.
abbrev pub body_or : String → Option String → String
body_or old none = old
body_or old (some text) = text

-- The calls of Header.Set, one after another.
abbrev pub set_all : (H : Fasthttp) → Headers → H.Response → H.Response
set_all H [] s = s
set_all H (entry ∷ hs) s = set_all H hs (H.set_header entry.0 entry.1 s)

module _ {H : Fasthttp} (laws : IsFasthttp H) where
  pub header-set_all :
      (hs : Headers) (other : String) (s : H.Response)
      → all_plain hs ≡ true
      → H.header other (set_all H hs s) ≡ value_after laws.stored hs other (H.header other s)
  header-set_all [] other s p = refl
  header-set_all (entry ∷ hs) other s p =
      let (q, qs) = both_true (is_plain entry.0) (all_plain hs) p in
      header-set_all hs other (H.set_header entry.0 entry.1 s) qs
      ∙ ap (value_after laws.stored hs other) (laws.header-set_header entry.0 entry.1 other s q)

  pub status-set_all :
      (hs : Headers) (s : H.Response) → all_plain hs ≡ true → H.status (set_all H hs s) ≡ H.status s
  status-set_all [] s p = refl
  status-set_all (entry ∷ hs) s p =
      let (q, qs) = both_true (is_plain entry.0) (all_plain hs) p in
      status-set_all hs (H.set_header entry.0 entry.1 s) qs
      ∙ laws.status-set_header entry.0 entry.1 s q

  pub body-set_all :
      (hs : Headers) (s : H.Response) → all_plain hs ≡ true → H.body (set_all H hs s) ≡ H.body s
  body-set_all [] s p = refl
  body-set_all (entry ∷ hs) s p =
      let (q, qs) = both_true (is_plain entry.0) (all_plain hs) p in
      body-set_all hs (H.set_header entry.0 entry.1 s) qs ∙ laws.body-set_header entry.0 entry.1 s q

  pub header-error_response :
      (code : ℤ) (msg other : String) (s : H.Response)
      → H.header other (error_response H code msg s) ≡ H.header other s
  unfolding error_response
  header-error_response code msg other s =
      laws.header-set_body other msg _
      ∙ laws.header-set_status other code _
      ∙ laws.header-set_status other code s

  pub status-error_response :
      (code : ℕ) (msg : String) (s : H.Response)
      → 0 < code
      → H.status (error_response H (pos code) msg s) ≡ pos code
  unfolding error_response
  status-error_response code msg s p = laws.status-set_body msg _ ∙ laws.status-set_status code _ p

  pub body-error_response :
      (code : ℤ) (msg : String) (s : H.Response) → H.body (error_response H code msg s) ≡ msg
  unfolding error_response
  body-error_response code msg s = laws.body-set_body msg _

  pub status-json :
      {V : Type 0} (encode : V → Option String) (code : ℕ) (v : V) (s : H.Response)
      → 0 < code
      → H.status (json H encode (pos code) v s).1 ≡ pos code
  unfolding json
  status-json encode code v s p = elim (Option-cases (encode v)) [
    | inl e ↦ rw e (laws.status-set_status code _ p)
    | inr (text, e) ↦ rw e (laws.status-set_body text _ ∙ laws.status-set_status code _ p)
  ]

  pub header-json :
      {V : Type 0} (encode : V → Option String) (code : ℤ) (v : V) (other : String) (s : H.Response)
      → H.header other (json H encode code v s).1
        ≡ H.header other (H.set_header "Content-Type" "application/json" s)
  unfolding json
  header-json encode code v other s = elim (Option-cases (encode v)) [
    | inl e ↦ rw e (laws.header-set_status other code _)
    | inr (text, e) ↦ rw e (laws.header-set_body other text _ ∙ laws.header-set_status other code _)
  ]

  pub body-json :
      {V : Type 0} (encode : V → Option String) (code : ℤ) (v : V) (s : H.Response)
      → H.body (json H encode code v s).1 ≡ body_or (H.body s) (encode v)
  unfolding json same_name same_fold
  body-json encode code v s = elim (Option-cases (encode v)) [
    | inl e ↦ rw e (
        laws.body-set_status code _ ∙ laws.body-set_header "Content-Type" "application/json" s refl)
    | inr (text, e) ↦ rw e (laws.body-set_body text _)
  ]

module _ {H : Fasthttp} {L : Type 0} where
  -- RequestID sets the ID and the number of UUIDs, and nothing else.
  pub with_request_id-form :
      (uuid : ℕ → String) (w : World H L)
      → (id : String) × (n : ℕ) × (with_request_id H L uuid w
          ≡ record w { request_id = id; uuids = n })
  unfolding with_request_id
  with_request_id-form uuid w = elim (Bool-cases (str_eq w.request_id "")) [
    | inl none' ↦ (uuid w.uuids, suc w.uuids, ap (made uuid w) none')
    | inr some' ↦ (w.request_id, w.uuids, ap (made uuid w) some')
  ]
    where
      made : (ℕ → String) → World H L → Bool → World H L
      made uuid w b = if b then record w { request_id = uuid w.uuids; uuids = suc w.uuids } else w

  pub response-with_request_id :
      (uuid : ℕ → String) (w : World H L) → (with_request_id H L uuid w).response ≡ w.response
  response-with_request_id uuid w =
      let (_, _, e) = with_request_id-form uuid w in ap (λ (v : World H L). v.response) e
