-- ===== src/Headers.antt =====
-- src/middleware/headers.rs: the headers that every answer of the routes gets.
pub mod Table
use secret_management.Std.Map.{insert, remove}
use secret_management.Http.{HeaderMap, Response}

unfoldable pub harden : HeaderMap → HeaderMap
harden h =
    let h1 = insert "x-content-type-options" "nosniff" h in
    let h2 = insert "x-frame-options" "DENY" h1 in
    let h3 = insert "strict-transport-security" "max-age=63072000; includeSubDomains; preload" h2 in
    let h4 = insert "content-security-policy" "default-src 'none'; frame-ancestors 'none'" h3 in
    let h5 = insert "referrer-policy" "no-referrer" h4 in
    let h6 = insert "cache-control" "no-store, no-cache, must-revalidate" h5 in
    let h7 = insert "permissions-policy" "camera=(), microphone=(), geolocation=()" h6 in
    remove "server" h7

-- `security_headers`, on the answer of `next.run(req)`
unfoldable pub security_headers : {B : Type 0} → Response B → Response B
security_headers res = record res { headers = harden res.headers }
