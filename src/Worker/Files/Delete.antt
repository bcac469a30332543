-- ===== src/Worker/Files/Delete.antt =====
-- worker/htttphandle.go: what RemoteDelSector has removed.
use filecoin_sealer.Prelude.{
  ◌≡◌, refl, sym, ap, subst, ◌∙◌, String, false, [], ◌∷◌, ℤ, Called, got, lost, str_eq, arith,
}
use filecoin_sealer.Tables.{DbTaskInfo}
use filecoin_sealer.Miner.{Reply}
use filecoin_sealer.Worker.Files.Defs.{
  Route, header, status_of, look_up, FileSystem, and_then, answer_del, del_sector,
  remote_del_sector,
}

module _ {S : Type 0} (fs : FileSystem S) (parse : String → Called ℤ) (query : ℤ → ℤ → Called Reply)
    (route : Route) (r : DbTaskInfo) where
  seal_path :
      (s : S)
      → look_up parse query route ≡ got ("seal", r)
      → remote_del_sector fs parse query route s ≡ answer_del fs (del_sector fs r s)
  unfolding remote_del_sector str_eq
  seal_path s h = rw h

  -- The client asks to remove a sector, its row has been found, and it sees the status 200: then neither
  -- the sealed file nor the cache directory of the row exists any more.
  pub remote_del_sector-removed :
      (s : S)
      → look_up parse query route ≡ got ("seal", r)
      → status_of (remote_del_sector fs parse query route s).0 ≡ 200
      → (fs.exists r.sealed_sector_path (remote_del_sector fs parse query route s).1 ≡ false)
        × (fs.exists r.cache_dir_path (remote_del_sector fs parse query route s).1 ≡ false)
  remote_del_sector-removed s h ok =
      subst
        (λ q.
          (fs.exists r.sealed_sector_path q.1 ≡ false) × (fs.exists r.cache_dir_path q.1 ≡ false))
        (sym (seal_path s h))
        (removed (fs.remove r.sealed_sector_path s) refl
          (subst (λ q. status_of q.0 ≡ 200) (seal_path s h) ok))
    where
      Gone : S → Type 0
      Gone s' =
          (fs.exists r.sealed_sector_path s' ≡ false) × (fs.exists r.cache_dir_path s' ≡ false)

      cache_too :
          (s1 : S) (q : Called (Unit {0}) × S)
          → fs.exists r.sealed_sector_path s1 ≡ false
          → fs.remove_all r.cache_dir_path s1 ≡ q
          → status_of (answer_del fs q).0 ≡ 200
          → Gone (answer_del fs q).1
      cache_too s1 (lost e, s2) gone eq ok = absurd (omega (arith, ok))
      cache_too s1 (got u, s2) gone eq ok = (
        subst (λ x. fs.exists r.sealed_sector_path x.1 ≡ false) eq
            (fs.remove_all_adds_none r.cache_dir_path r.sealed_sector_path s1 gone),
        subst (λ x. fs.exists r.cache_dir_path x.1 ≡ false) eq
            (fs.remove_all_sound r.cache_dir_path s1 (ap (λ x. x.0) eq)),
      )

      removed :
          (q : Called (Unit {0}) × S)
          → fs.remove r.sealed_sector_path s ≡ q
          → status_of (answer_del fs (and_then fs q (λ s'. fs.remove_all r.cache_dir_path s'))).0
            ≡ 200
          → Gone (answer_del fs (and_then fs q (λ s'. fs.remove_all r.cache_dir_path s'))).1
      removed (lost e, s1) eq ok = absurd (omega (arith, ok))
      removed (got u, s1) eq ok =
          cache_too s1 (fs.remove_all r.cache_dir_path s1)
            (subst (λ x. fs.exists r.sealed_sector_path x.1 ≡ false) eq
              (fs.remove_sound r.sealed_sector_path s (ap (λ x. x.0) eq)))
            refl ok

  -- The sealed file of the sector is gone, as it is after a call that removed it but not the cache
  -- directory. Then every further call is answered with the status 500, and does not come to the cache
  -- directory: it does no more than try to remove the sealed file.
  pub remote_del_sector-stuck :
      (s : S)
      → look_up parse query route ≡ got ("seal", r)
      → fs.exists r.sealed_sector_path s ≡ false
      → remote_del_sector fs parse query route s
        ≡ (header 500 ∷ [], (fs.remove r.sealed_sector_path s).1)
  remote_del_sector-stuck s h gone =
      let (e, lost_file) = fs.remove_missing r.sealed_sector_path s gone in
      seal_path s h ∙ failed (fs.remove r.sealed_sector_path s) e lost_file
    where
      failed :
          (q : Called (Unit {0}) × S) (e : String)
          → q.0 ≡ lost e
          → answer_del fs (and_then fs q (λ s'. fs.remove_all r.cache_dir_path s'))
            ≡ (header 500 ∷ [], q.1)
      failed (lost x, s1) e h = refl
      failed (got u, s1) e h = cc
