-- ===== src/K1s/Client.antt =====
-- internal/k1s/client.go: requests to the k1s controller API, and the retries when the replica that
-- answers is not the leader. `Transport` is what the code takes of net/http, net/url, path, time,
-- crypto/x509 and encoding/json; `W` is the world that requests and waiting change.
pub mod Transport
pub mod Request
pub mod Leader
pub mod Routes
