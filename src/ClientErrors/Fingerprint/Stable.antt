-- ===== src/ClientErrors/Fingerprint/Stable.antt =====
-- What a fingerprint does and does not depend on.
use logingestor.Prelude.{◌≡◌, some}
use logingestor.ClientErrors.Model.{api, ApiContext}
use logingestor.ClientErrors.Fingerprint.{Matchers, Subject, fingerprint_parts, fingerprint_of}

-- Two failed requests that agree on the request are one issue: the fingerprint of an api failure
-- depends on the error's name and on the method, path, status and code of the request, and neither on
-- the message nor on the stack.
pub fingerprint-api :
    (m : Matchers) (e e' : Subject) (a : ApiContext)
    → e.kind ≡ api
    → e'.kind ≡ api
    → e.api ≡ some a
    → e'.api ≡ some a
    → e'.name ≡ e.name
    → (fingerprint_of m e').fingerprint ≡ (fingerprint_of m e).fingerprint
unfolding fingerprint_of fingerprint_parts
fingerprint-api m e e' a k k' c c' n = rw (k, k', c, c', n)
