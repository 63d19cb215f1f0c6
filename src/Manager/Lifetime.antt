-- ===== src/Manager/Lifetime.antt =====
-- A handle after the request that made it, and after a shutdown.
use cuda2rocm.Base.{
  ℕ, zero, suc, ◌<◌, ◌≡◌, refl, ap, false, none, some, List, [], ◌∷◌, set, get_elem?, arith, ok,
  word_mod,
}
use cuda2rocm.MemorySpace.{MemorySpace, destroy_reservation}
use cuda2rocm.Manager.{Manager, Strategy, Handle, request_reservation, shutdown, destroy}
use cuda2rocm.Manager.Requests.{
  AllWithin, charge_at, charged, first_server, handle, request_reservation-Outcome,
}

uncharged :
    (bytes : ℕ) (s : MemorySpace)
    → destroy_reservation (record { captured = bytes; arena_size = bytes }) (charged bytes s) ≡ s
unfolding destroy_reservation
uncharged bytes s = ground arith

-- The space that the first server's index names.
uncharge_at :
    (strategy : Strategy) (bytes i : ℕ) (ss : List MemorySpace)
    → first_server strategy bytes ss ≡ some i
    → (s : MemorySpace) × (get_elem? (charge_at bytes i ss) i ≡ some (charged bytes s))
      × (set (charge_at bytes i ss) i s ≡ ss)
unfolding first_server
uncharge_at strategy bytes i [] h = cc
uncharge_at strategy bytes zero (s ∷ ss) h = (s, refl, refl)
uncharge_at strategy bytes (suc i) (s ∷ ss) h =
    let (x, e, f) = uncharge_at strategy bytes i ss (ground arith) in (x, e, ap (◌∷◌ s) f)

-- With spaces within their limits and before a shutdown, destroying a reservation right after the
-- request that made it gives back its memory and its count.
pub destroy-request :
    (strategy : Strategy) (bytes i : ℕ) (m : Manager)
    → AllWithin m.spaces
    → m.is_shutdown ≡ false
    → m.active_reservations < word_mod
    → first_server strategy bytes m.spaces ≡ some i
    → ((request_reservation strategy bytes m).1 ≡ ok (some (handle i bytes)))
      × (destroy (handle i bytes) (request_reservation strategy bytes m).0 ≡ some m)
unfolding destroy
destroy-request strategy bytes i m v open_ small e =
    let o = rw e at (request_reservation-Outcome strategy bytes m v) in
    let (s, f, g) = uncharge_at strategy bytes i m.spaces e in
    (ground (arith, o), ground (arith, o, f, g, uncharged bytes s))

-- After a shutdown, destroying any reservation calls back into a space that has been destroyed: the
-- flag that the callbacks test protects the manager's counter alone.
pub destroy-shutdown : (h : Handle) (m : Manager) → destroy h (shutdown m) ≡ none
unfolding destroy shutdown
destroy-shutdown h m = refl
