-- ===== src/Http/Laws.antt =====
-- Which methods the text of a request's method gives.
use crab_rs.Prelude.{String, ok, ◌≡◌, ◌≢◌, ◌↔◌, refl, arith, eq_iff}
use crab_rs.Http.{
  HttpMethod, options, get, post, put, delete, head, trace, connect, patch, hyper_method, try_from,
}

-- The name of a method is taken back for that method just if the method is not OPTIONS.
pub try_from-hyper_method : (m : HttpMethod) → (try_from (hyper_method m) ≡ ok m) ↔ (m ≢ options)
unfolding try_from hyper_method
try_from-hyper_method options = (λ h. cc, λ h. absurd (h refl))
try_from-hyper_method get = (λ _ h. cc, λ _. refl)
try_from-hyper_method post = (λ _ h. cc, λ _. refl)
try_from-hyper_method put = (λ _ h. cc, λ _. refl)
try_from-hyper_method delete = (λ _ h. cc, λ _. refl)
try_from-hyper_method head = (λ _ h. cc, λ _. refl)
try_from-hyper_method trace = (λ _ h. cc, λ _. refl)
try_from-hyper_method connect = (λ _ h. cc, λ _. refl)
try_from-hyper_method patch = (λ _ h. cc, λ _. refl)

-- A text that is taken for a method is the method's name.
pub hyper_method-try_from :
    (value : String) (m : HttpMethod) → try_from value ≡ ok m → hyper_method m ≡ value
unfolding try_from hyper_method
hyper_method-try_from value m h = ground (
  arith,
  eq_iff value "GET",
  eq_iff value "POST",
  eq_iff value "PUT",
  eq_iff value "DELETE",
  eq_iff value "HEAD",
  eq_iff value "TRACE",
  eq_iff value "CONNECT",
  eq_iff value "PATCH",
)
