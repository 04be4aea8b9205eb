-- ===== src/Bin/Uipcat/Sending.antt =====
-- The client against the daemon.
use uip.Base.{ℕ, ◌≡◌, refl, List, [], ◌∷◌, none, some, ok}
use uip.Data.Identifier.{Identifier}
use uip.Unix.Codec.{Frame}
use uip.Unix.State.{World, Env, Item, serve}
use uip.Unix.State.Ports.{serve_unbound, bound_port}
use uip.Bin.Uipcat.{Input, line, read_error, connect}

-- The frames of a stream as the daemon reads them.
abbrev pub items : List Frame → List Item
items [] = []
items (f ∷ fs) = some (ok f) ∷ items fs

-- Whatever lines are given to `uipcat` in its sending mode, the daemon forwards none of them and
-- registers nothing, because `connect` binds no port first.
pub serve-connect :
    (env : Env) (remote_id : Identifier) (port : ℕ) (lines : List Input) (w : World)
    → serve env (items (connect remote_id port lines)) w ≡ w
serve-connect env remote_id port lines w =
    serve_unbound env (items (connect remote_id port lines)) w (no_bind lines)
  where
    no_bind : (lines : List Input) → bound_port env (items (connect remote_id port lines)) ≡ none
    no_bind [] = unfold connect in refl
    no_bind (line text ∷ rest) = unfold connect in refl
    no_bind (read_error ∷ rest) = unfold connect in refl
