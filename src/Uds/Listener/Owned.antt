-- ===== src/Uds/Listener/Owned.antt =====
-- The descriptors and the socket file of a listener.
use grpc_uds.Prelude.{
  ℕ, ◌≡◌, ◌<◌, ◌≤◌, true, List, [], ◌∷◌, ok, err, length, ◌==◌, ◌||◌, ltb, if◌then◌else◌,
}
use grpc_uds.Uds.{errno, invalid_path, conn_error}
use grpc_uds.Uds.Listener.{Effect, unlinks, opens, closes, Bound, drop_listener, c_name}
use grpc_uds.Client.Conn.Wait.{trim_nul}

abbrev without : ℕ → List ℕ → List ℕ
without fd [] = []
without fd (g ∷ fds) = if g == fd then fds else g ∷ without fd fds

-- The descriptors that are open after the effects.
abbrev pub open_after : List Effect → List ℕ → List ℕ
open_after [] fds = fds
open_after (unlinks path ∷ fx) fds = open_after fx fds
open_after (opens fd ∷ fx) fds = open_after fx (fd ∷ fds)
open_after (closes fd ∷ fx) fds = open_after fx (without fd fds)

-- `fds` were open before.
abbrev pub IsBound : List ℕ → List ℕ → Bound → Type 0
IsBound fds path (fx, err invalid_path) =
    (fx ≡ []) × (((length (trim_nul path) == 0) || ltb 107 (length (trim_nul path))) ≡ true)
IsBound fds path (fx, err (errno e)) =
    (open_after fx fds ≡ fds)
    × (0 < length (trim_nul path))
    × (length (trim_nul path) ≤ 107)
    × (rest : List Effect) × (fx ≡ unlinks (c_name (trim_nul path)) ∷ rest)
IsBound fds path (fx, err (conn_error e)) = ⊥
IsBound fds path (fx, ok l) =
    (open_after fx fds ≡ l.fd ∷ fds)
    × (open_after (drop_listener l) (open_after fx fds) ≡ fds)
    × (fx ≡ unlinks (c_name l.addr) ∷ opens l.fd ∷ [])
    × (l.addr ≡ trim_nul path)
    × (0 < length l.addr)
    × (length l.addr ≤ 107)
