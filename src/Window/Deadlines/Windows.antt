-- ===== src/Window/Deadlines/Windows.antt =====
-- worker/wdpost.go: WinPoStServer searches each window of an actor once.
use filecoin_sealer.Prelude.{
  ◌≡◌, Bool, true, false, ◌&&◌, not, List, [], ◌∷◌, ℤ, negsuc, ◌≤ℤ◌, ◌<ℤ◌, eq_ℤ, Called, got, lost,
  arith, Bool-cases, inl, inr, subst, sym, and_true, pos,
}
use filecoin_sealer.Window.Data.{MinerPostInfo}
use filecoin_sealer.Window.Deadlines.Defs.{
  ActorPostInfo, in_window, info_or_blank, win_post_actor, win_post_server,
}

above : (a b : ℤ) → a ≤ℤ b → not (eq_ℤ b a) ≡ true → a <ℤ b
above (pos a) (pos b) l n = ground (arith, l, n)
above (pos a) (negsuc b) l n = ground (arith, l, n)
above (negsuc a) (pos b) l n = ground (arith, l, n)
above (negsuc a) (negsuc b) l n = ground (arith, l, n)

never : (b : Bool) → (not b && false) ≡ false
never b = ground arith

module _ {B : Type 0} where
  -- The chain's answers, each for the same window as the one before or for a later one; some calls may
  -- fail.
  abbrev pub InOrder : ℤ → List (Called (MinerPostInfo B)) → Type 0
  InOrder open_epoch [] = Unit
  InOrder open_epoch (lost e ∷ os) = InOrder open_epoch os
  InOrder open_epoch (got mpi ∷ os) = (open_epoch ≤ℤ mpi.di.opens) × InOrder mpi.di.opens os

  -- Searches in their windows, each for a later window than the one before.
  abbrev pub OncePerWindow : ℤ → List (MinerPostInfo B) → Type 0
  OncePerWindow open_epoch [] = Unit
  OncePerWindow open_epoch (mpi ∷ rest) =
      (open_epoch <ℤ mpi.di.opens) × (in_window mpi.di ≡ true) × OncePerWindow mpi.di.opens rest

  later : (a b : ℤ) (os : List (Called (MinerPostInfo B))) → a ≤ℤ b → InOrder b os → InOrder a os
  later a b [] l h = tt
  later a b (lost e ∷ os) l h = later a b os l h
  later a b (got mpi ∷ os) l h = (omega (arith, l, h.0), h.1)

  abbrev starts : MinerPostInfo B → ActorPostInfo → Bool
  starts mpi info = not (eq_ℤ mpi.di.opens info.di_open) && in_window mpi.di

  server_starts :
      (mpi : MinerPostInfo B) (os : List (Called (MinerPostInfo B))) (info : ActorPostInfo)
      → starts mpi info ≡ true
      → win_post_server (got mpi ∷ os) info
        ≡ mpi ∷ win_post_server os (record info { di_open = mpi.di.opens })
  unfolding win_post_server win_post_actor
  server_starts mpi os info s = rw (win_post_server, s, s)

  server_idle :
      (o : Called (MinerPostInfo B)) (os : List (Called (MinerPostInfo B))) (info : ActorPostInfo)
      → starts (info_or_blank o) info ≡ false
      → win_post_server (o ∷ os) info ≡ win_post_server os info
  unfolding win_post_server win_post_actor
  server_idle o os info s = rw (win_post_server, s, s)

  -- The answers of the chain for an actor are each for the same window as the one before or a later
  -- one, from the window on that was searched last; some calls may fail. Then each search that
  -- WinPoStServer starts is inside its window, and for a later window than the search before.
  pub win_post_server-OncePerWindow :
      (os : List (Called (MinerPostInfo B))) (info : ActorPostInfo)
      → InOrder info.di_open os
      → OncePerWindow info.di_open (win_post_server os info)
  unfolding win_post_server
  win_post_server-OncePerWindow [] info h = tt
  win_post_server-OncePerWindow (lost e ∷ os) info h =
      subst (OncePerWindow info.di_open)
        (sym (server_idle (lost e) os info (never (eq_ℤ (pos 0) info.di_open))))
        (win_post_server-OncePerWindow os info h)
  win_post_server-OncePerWindow (got mpi ∷ os) info h = elim (Bool-cases (starts mpi info)) [
    | inl s ↦
        (let (n, w) = and_true (not (eq_ℤ mpi.di.opens info.di_open)) (in_window mpi.di) s in
          subst (OncePerWindow info.di_open) (sym (server_starts mpi os info s)) (
            above info.di_open mpi.di.opens h.0 n,
            w,
            win_post_server-OncePerWindow os (record info { di_open = mpi.di.opens }) h.1,
          ))
    | inr s ↦
        subst (OncePerWindow info.di_open) (sym (server_idle (got mpi) os info s))
          (win_post_server-OncePerWindow os info (later info.di_open mpi.di.opens os h.0 h.1))
  ]
