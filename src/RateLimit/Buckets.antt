-- ===== src/RateLimit/Buckets.antt =====
-- Which requests share a bucket in src/middleware/rate_limit.rs.
use Prim.Native.String.{◌++◌ as ◌<>◌}
use text.Mathlib.TextLemmas.{append_cancel_left}
use mathlib.Core.Path.{ap₂}
use secret_management.Prelude.{
  ==_of_ne, String, ◌≡◌, ◌≢◌, refl, sym, ap, ◌∙◌, ◌↔◌, Option, some, and_then,
}
use secret_management.Std.Text.{strip_prefix}
use secret_management.Http.{Request}
use secret_management.RateLimit.{client_ip, bucket_key}

-- The key that a request presents to the limiter.
abbrev pub presented : Request → Option String
presented req = and_then req.authorization (strip_prefix "Bearer ")

bucket_key-presented :
    (req : Request) (k : String)
    → presented req ≡ some k
    → k ≢ "anon"
    → bucket_key req ≡ client_ip req <> ":" <> k
unfolding bucket_key
bucket_key-presented req k e named = rw (e, ==_of_ne k "anon" named)

-- Requests of one client that present keys other than "anon" share a bucket exactly if they present
-- the same key.
pub bucket_key_separates :
    (a b : Request) (k l : String)
    → presented a ≡ some k
    → presented b ≡ some l
    → k ≢ "anon"
    → l ≢ "anon"
    → client_ip a ≡ client_ip b
    → (bucket_key a ≡ bucket_key b) ↔ (k ≡ l)
bucket_key_separates a b k l p q n o same =
    let left = bucket_key-presented a k p n in
    let right = bucket_key-presented b l q o in
    let cancel = λ (e : client_ip b <> ":" <> k ≡ client_ip b <> ":" <> l).
      append_cancel_left ":" k l (append_cancel_left (client_ip b) (":" <> k) (":" <> l) e) in
    (
      λ e. cancel (sym (ap (λ ip. ip <> ":" <> k) same) ∙ sym left ∙ e ∙ right),
      λ e. left ∙ ap₂ (λ ip key. ip <> ":" <> key) same e ∙ sym right,
    )

-- Where the connection's address is known it is the client's address, and what `X-Forwarded-For` says
-- does not change the bucket.
pub client_ip-peer :
    (req : Request) (addr : String) (claimed : Option String)
    → req.peer ≡ some addr
    → (client_ip req ≡ addr)
      × (bucket_key (record req { forwarded_for = claimed }) ≡ bucket_key req)
unfolding client_ip bucket_key
client_ip-peer req addr claimed e = rw e (refl, refl)
