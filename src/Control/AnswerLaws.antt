-- ===== src/Control/AnswerLaws.antt =====
-- Which headers of a node's response reach the client.
use mathlib.Core.Logic.{◌≢◌}
use crab_rs.Prelude.{
  String, Option, none, some, [], ◌∷◌, ◌++◌, All, ok, ℕ, ◌≡◌, refl, ap, ◌∙◌, arith, eq_iff,
}
use crab_rs.Http.{Headers}
use crab_rs.Control.Answers.{HeaderMap, insert_valid, insert_headers, proxy_response}

module _ (h : HeaderMap) where
  -- A header of another name, or of no name.
  abbrev pub IsOther : String → String × String → Type 0
  IsOther n kv = h.header_name kv.0 ≢ some n

  insert_headers-append :
      (before after : Headers) (m : h.Map)
      → insert_headers h (before ++ after) m ≡ insert_headers h after (insert_headers h before m)
  unfolding insert_headers
  insert_headers-append [] after m = refl
  insert_headers-append (kv ∷ before) after m = insert_headers-append before after _

  get_all-insert_valid :
      (name val : Option String) (m : h.Map) (n : String)
      → name ≢ some n
      → h.get_all (insert_valid h name val m) n ≡ h.get_all m n
  unfolding insert_valid
  get_all-insert_valid (some k) (some v) m n other =
      rw h.get_all-insert (ground (arith, eq_iff k n))
  get_all-insert_valid (some k) none m n other = refl
  get_all-insert_valid none val m n other = refl

  get_all-insert_headers :
      (headers : Headers) (m : h.Map) (n : String)
      → All (IsOther n) headers
      → h.get_all (insert_headers h headers m) n ≡ h.get_all m n
  unfolding insert_headers
  get_all-insert_headers [] m n others = refl
  get_all-insert_headers ((k, v) ∷ headers) m n (other, others) =
      get_all-insert_headers headers (insert_valid h (h.header_name k) (h.header_value v) m) n
        others
      ∙ get_all-insert_valid (h.header_name k) (h.header_value v) m n other

  -- Of the headers of a node's response that have one name, the client gets the last one only: the
  -- name has the value of a header that is valid and after which no header has that name, and no
  -- other value.
  pub proxy_response-last_value :
      (status_code : ℕ) (before after : Headers) (k v n val : String)
      → h.header_name k ≡ some n
      → h.header_value v ≡ some val
      → All (IsOther n) after
      → h.get_all
          (proxy_response h
            (ok (record { status_code = status_code; headers = before ++ (k, v) ∷ after }))).headers
          n
        ≡ val ∷ []
  unfolding proxy_response
  proxy_response-last_value status_code before after k v n val named valid others =
      let m = insert_headers h before h.empty in
      ap (λ r. h.get_all r n) (insert_headers-append before ((k, v) ∷ after) h.empty)
      ∙ get_all-insert_headers after _ n others
      ∙ ap (λ name. h.get_all (insert_valid h name (h.header_value v) m) n) named
      ∙ ap (λ value. h.get_all (insert_valid h (some n) value m) n) valid
      ∙ rw h.get_all-insert (ground (arith, eq_iff n n))
