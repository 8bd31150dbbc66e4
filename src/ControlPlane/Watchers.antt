-- ===== src/ControlPlane/Watchers.antt =====
-- The watchers of the control plane, src/control_plane.cc: CpAddWatcher and CpRemoveWatcher.
use hyper_derp.Prelude.{
  ℕ, ◌+◌, ◌-◌, ◌≤◌, ◌<◌, ◌≡◌, ◌≢◌, refl, ap, sym, ◌∙◌, inl, inr, true, false, leb, some, List, [],
  ◌∷◌, ◌++◌, length, take, set, get_or, get_elem?, arith, Bool-cases, to_nat, length-set,
  length-append, length-take, get_elem?-lt, get_elem?-set_self, get_elem?-set_ne, ℕ_discrete,
}
use hyper_derp.Prelude.Int.{ℤ, pos, negsuc}
use hyper_derp.Prelude.Slots.{
  find_slot-cases, count, count-set, count-append, count-take_last, count-pos, get_or-get_elem?,
}
use hyper_derp.ControlPlane.{
  ControlPlane, max_watchers, is_fd, same_int, add_watcher_at, add_watcher, remove_watcher_at,
  remove_watcher,
}

-- How often a descriptor stands in the list of watchers.
abbrev pub watches : ControlPlane → ℤ → ℕ
watches cp fd = count (is_fd fd) cp.watcher_fds

pub record IsWatched (cp : ControlPlane) : Type 0 where
  pub bounded : length cp.watcher_fds ≤ max_watchers
  pub once : (fd : ℤ) → watches cp fd ≤ 1

same_int_eq : (a b : ℤ) → same_int a b ≡ true → a ≡ b
same_int_eq (pos m) (pos n) h = ap pos (ground arith)
same_int_eq (negsuc m) (negsuc n) h = ap negsuc (ground arith)
same_int_eq (pos m) (negsuc n) h = absurd (ground arith)
same_int_eq (negsuc m) (pos n) h = absurd (ground arith)

same_int_refl : (a : ℤ) → same_int a a ≡ true
same_int_refl (pos m) = ground arith
same_int_refl (negsuc m) = ground arith

-- One descriptor is not another.
unlike : (a b : ℤ) → a ≢ b → same_int a b ≡ false
unlike a b ne = elim (Bool-cases (same_int a b)) [
  | inl t ↦ absurd (ne (same_int_eq a b t))
  | inr f ↦ f
]

appended :
    (fds : List ℤ) (fd k : ℤ)
    → count (is_fd k) (fds ++ (fd ∷ [])) ≡ count (is_fd k) fds + to_nat (same_int fd k)
unfolding count
appended fds fd k = omega (arith, count-append (is_fd k) fds (fd ∷ []))

-- The last element moved over the one at `i`, and the list cut by one.
swapped :
    (fds : List ℤ) (i : ℕ) (x k : ℤ)
    → get_elem? fds i ≡ some x
    → count (is_fd k) (take (length fds - 1) (set fds i (get_or fds (length fds - 1) (negsuc 0))))
        + to_nat (is_fd k x)
      ≡ count (is_fd k) fds
swapped fds i x k at =
    let m = length fds - 1 in
    let last = get_or fds m (negsuc 0) in
    let bound = get_elem?-lt fds i x at in
    let ends : get_elem? (set fds i last) m ≡ some last = elim (ℕ_discrete i m) [
      | yes e ↦ rw (sym e) (get_elem?-set_self fds i (get_or fds i (negsuc 0)) bound)
      | no ne ↦ get_elem?-set_ne fds i m last ne ∙ get_or-get_elem? fds m (negsuc 0) (omega arith)
    ] in
    omega (
      arith,
      count-set (is_fd k) fds i x last at,
      count-take_last (is_fd k) (set fds i last) m last (omega (arith, length-set fds i last)) ends,
    )

-- CpAddWatcher keeps the list of watchers free of repetitions and within 64; afterwards the
-- descriptor watches unless the list was full, and no other has come or gone.
pub add_watcher-watches :
    (cp : ControlPlane) (fd other : ℤ)
    → IsWatched cp
    → IsWatched (add_watcher cp fd)
      × (length cp.watcher_fds < 64 → watches (add_watcher cp fd) fd ≡ 1)
      × (other ≢ fd → watches (add_watcher cp fd) other ≡ watches cp other)
unfolding add_watcher add_watcher_at
add_watcher-watches cp fd other ok = elim (find_slot-cases (is_fd fd) cp.watcher_fds) [
  | inr (i, x, e, at, hit, there) ↦
      rw (e, add_watcher_at)
        (
          ok,
          (λ room. omega (arith, ok.once fd, count-pos (is_fd fd) cp.watcher_fds x there)),
          λ ne. refl,
        )
  | inl (e, _, absent) ↦
      rw (e, add_watcher_at)
        (elim (Bool-cases (leb max_watchers (length cp.watcher_fds))) [
          | inl full ↦ rw full (ok, (λ room. absurd (ground arith)), λ ne. refl)
          | inr room ↦
              let size = length-append cp.watcher_fds (fd ∷ []) in
              rw room (
                record {
                  bounded = ground (arith, size);
                  once = λ k. elim (Bool-cases (same_int fd k)) [
                    | inl t ↦
                        let eq = same_int_eq fd k t in
                        let fresh : count (is_fd k) cp.watcher_fds ≡ 0 = rw (sym eq) absent in
                        ground (arith, appended cp.watcher_fds fd k)
                    | inr f ↦ ground (arith, appended cp.watcher_fds fd k, ok.once k)
                  ];
                },
                (λ _. ground (arith, appended cp.watcher_fds fd fd, same_int_refl fd)),
                λ ne.
                    ground
                      (arith, appended cp.watcher_fds fd other, unlike fd other (λ e. ne (sym e))),
              )
        ])
]

-- From a list of watchers without repetitions, CpRemoveWatcher takes its descriptor out and no
-- other, and keeps the list so.
pub remove_watcher-watches :
    (cp : ControlPlane) (fd other : ℤ)
    → IsWatched cp
    → IsWatched (remove_watcher cp fd)
      × (watches (remove_watcher cp fd) fd ≡ 0)
      × (other ≢ fd → watches (remove_watcher cp fd) other ≡ watches cp other)
unfolding remove_watcher remove_watcher_at
remove_watcher-watches cp fd other ok = elim (find_slot-cases (is_fd fd) cp.watcher_fds) [
  | inl (e, _, absent) ↦ rw (e, remove_watcher_at) (ok, absent, λ ne. refl)
  | inr (i, x, e, at, hit, _) ↦
      let m = length cp.watcher_fds - 1 in
      let left = swapped cp.watcher_fds i x in
      let ys = set cp.watcher_fds i (get_or cp.watcher_fds m (negsuc 0)) in
      rw (e, remove_watcher_at)
        (
          record {
            bounded = omega (
              arith,
              ok.bounded,
              length-take m ys,
              length-set cp.watcher_fds i (get_or cp.watcher_fds m (negsuc 0)),
            );
            once = λ k. omega (arith, left k at, ok.once k);
          },
          ground (arith, left fd at, ok.once fd),
          λ ne.
              ground
                (arith, left other at, unlike x other (λ e. ne (sym e ∙ same_int_eq x fd hit))),
        )
]
