-- ===== src/Change/Netlink/Reading.antt =====
-- When a read of the netlink socket ends, and with what.
use uip.Base.{ℕ, zero, suc, ◌≡◌, refl, List, ◌∷◌, ◌++◌, some, Result, ok, err, ErrorKind, replicate}
use uip.Change.Debounce.{Poll, ready, pending}
use uip.Change.Netlink.{
  nix_error_to_io_error, Round, not_ready, unready, readable, bytes, failed, would_block, poll_read,
}

-- What a round that is no blocked read makes of the filled part of the buffer.
unfoldable pub outcome :
    (kind : ℕ → ErrorKind) → Round kind → List ℕ → Poll (Result (Unit {0}) ErrorKind) × List ℕ
outcome kind not_ready filled = (pending, filled)
outcome kind (unready e) filled = (ready (err e), filled)
outcome kind (readable (bytes b)) filled = (ready (ok tt), filled ++ b)
outcome kind (readable (failed e)) filled = (ready (err (nix_error_to_io_error kind e)), filled)
outcome kind (readable would_block) filled = (pending, filled)

abbrev pub Settles : {kind : ℕ → ErrorKind} → Round kind → Type 0
Settles (readable would_block) = ⊥
Settles _ = Unit {0}

-- However many reads would block first, `poll_read` ends at the first round that does not, with what that
-- round gives: the bytes after those that the buffer held, the error, or `Pending`.
pub poll_read-outcome :
    (kind : ℕ → ErrorKind) (blocked : ℕ) (r : Round kind) (rounds : List (Round kind))
    (filled : List ℕ)
    → Settles r
    → poll_read kind (replicate blocked (readable would_block) ++ (r ∷ rounds)) filled
      ≡ some (outcome kind r filled)
unfolding poll_read outcome
poll_read-outcome kind (suc n) r rounds filled h = poll_read-outcome kind n r rounds filled h
poll_read-outcome kind zero not_ready rounds filled h = refl
poll_read-outcome kind zero (unready e) rounds filled h = refl
poll_read-outcome kind zero (readable (bytes b)) rounds filled h = refl
poll_read-outcome kind zero (readable (failed e)) rounds filled h = refl
poll_read-outcome kind zero (readable would_block) rounds filled h = absurd h
