-- ===== src/Ice/Exchange.antt =====
-- The exchange of candidates in a PeerInfo payload, src/ice.cc.
use hyper_derp.Prelude.{
  ℕ, suc, ◌+◌, ◌-◌, ◌*◌, ◌%◌, ◌^◌, ◌≤◌, ◌<◌, ◌≡◌, refl, ap, sym, subst, ◌∙◌, inl, inr, false, leb,
  ltb, if◌then◌else◌, some, List, [], ◌∷◌, ◌++◌, append_assoc, append-nil, map, All, length, take,
  drop, length-append, take-append, take_all, drop-append, drop-append_add, arith, Bool-cases,
}
use hyper_derp.Ice.{
  IceCandidate, IceSession, HostLayout, max_candidates, candidate, add_remote_candidate,
  write_candidates, serialize_candidates, read_candidates, parse_candidates,
}

-- A candidate whose fields fit their types.
abbrev pub IsCandidate : IceCandidate → Type 0
IsCandidate c = (c.ctype < 256) × (c.ip < 2 ^ 32) × (c.port < 2 ^ 16)

-- The candidate that a receiver makes of it.
abbrev pub received : IceCandidate → IceCandidate
received c = candidate c.ctype c.ip c.port

add_remote_candidate-cases :
    (s : IceSession) (ctype ip port : ℕ) (more : List IceCandidate)
    → length s.remote_candidates ≤ 16
    → let r = add_remote_candidate s ctype ip port in
      (length r.1.remote_candidates ≤ 16)
      × (take 16 (r.1.remote_candidates ++ more)
          ≡ take 16 (s.remote_candidates ++ candidate ctype ip port ∷ more))
      × (r.1 ≡ record s { remote_candidates = r.1.remote_candidates })
      × (length r.1.remote_candidates ≡ length s.remote_candidates + (if r.0 then 1 else 0))
unfolding add_remote_candidate
add_remote_candidate-cases s ctype ip port more h =
    let c = candidate ctype ip port in
    let old = s.remote_candidates in
    elim (Bool-cases (leb max_candidates (length old))) [
      | inl full ↦
          let size : length old ≡ 16 = ground arith in
          rw full (
            h,
            take-append 16 old more size ∙ sym (take-append 16 old (c ∷ more) size),
            refl,
            omega arith,
          )
      | inr room ↦ rw room (
        ground (arith, length-append old (c ∷ [])),
        ap (take 16) (append_assoc old (c ∷ []) more),
        refl,
        length-append old (c ∷ []),
      )
    ]

module _ (layout : HostLayout) where
  -- One candidate at the start of a buffer.
  abbrev written : IceCandidate → List ℕ → List ℕ
  written c tail = c.ctype ∷ layout.bytes32 c.ip ++ (layout.bytes16 c.port ++ tail)

  module _ (c : IceCandidate) (tail : List ℕ) (ok : IsCandidate c) where
    ip_of : layout.word32 (take 4 (drop 1 (written c tail))) ≡ c.ip
    ip_of =
        ap layout.word32
          (take-append 4 (layout.bytes32 c.ip) (layout.bytes16 c.port ++ tail) (layout.size32 c.ip))
        ∙ layout.back32 c.ip ok.1

    port_of : layout.word16 (take 2 (drop 5 (written c tail))) ≡ c.port
    port_of =
        ap (λ b. layout.word16 (take 2 b))
          (drop-append 4 (layout.bytes32 c.ip) (layout.bytes16 c.port ++ tail) (layout.size32 c.ip))
        ∙ ap layout.word16 (take-append 2 (layout.bytes16 c.port) tail (layout.size16 c.port))
        ∙ layout.back16 c.port ok.2

    rest_of : drop 7 (written c tail) ≡ tail
    rest_of =
        drop-append_add 4 2 (layout.bytes32 c.ip) (layout.bytes16 c.port ++ tail)
          (layout.size32 c.ip)
        ∙ drop-append 2 (layout.bytes16 c.port) tail (layout.size16 c.port)

  -- One round of the loop of IceParseCandidates.
  read_round :
      (n : ℕ) (c : IceCandidate) (tail : List ℕ) (parsed : ℕ) (s : IceSession)
      → IsCandidate c
      → read_candidates layout (suc n) (written c tail) parsed s ≡ (
          let (added, s') = add_remote_candidate s c.ctype c.ip c.port in
          read_candidates layout n tail (if added then suc parsed else parsed) s')
  unfolding read_candidates
  read_round n c tail parsed s ok = rw (ip_of c tail ok, port_of c tail ok, rest_of c tail ok) refl

  with_remotes :
      (s : IceSession) {xs ys : List IceCandidate}
      → xs ≡ ys
      → record s { remote_candidates = xs } ≡ record s { remote_candidates = ys }
  with_remotes s e = cc

  with_remotes_of :
      (s s' : IceSession) (xs ys : List IceCandidate)
      → s' ≡ record s { remote_candidates = xs }
      → record s' { remote_candidates = ys } ≡ record s { remote_candidates = ys }
  with_remotes_of s s' xs ys e = ground arith

  -- What the loop makes of the candidates `cs`: those for which there is room are added.
  abbrev Reads : List IceCandidate → ℕ → IceSession → ℕ × IceSession → Type 0
  Reads cs parsed s r =
      (r.1 ≡ record s { remote_candidates = take 16 (s.remote_candidates ++ map received cs) })
      × (r.0 + length s.remote_candidates ≡ parsed + length r.1.remote_candidates)

  read-write_candidates :
      (cs : List IceCandidate) (rest : List ℕ) (parsed : ℕ) (s : IceSession)
      → All IsCandidate cs
      → length s.remote_candidates ≤ 16
      → Reads cs parsed s
          (read_candidates layout (length cs) (write_candidates layout cs ++ rest) parsed s)
  unfolding read_candidates write_candidates
  read-write_candidates [] rest parsed s ok h =
      (with_remotes s (rw append-nil (sym (take_all 16 s.remote_candidates h))), refl)
  read-write_candidates (c ∷ cs) rest parsed s ok h =
      let (added, s') = add_remote_candidate s c.ctype c.ip c.port in
      let (room, more, others, size) =
        add_remote_candidate-cases s c.ctype c.ip c.port (map received cs) h in
      let parsed' = if added then suc parsed else parsed in
      let one : parsed' ≡ parsed + (if added then 1 else 0) = ground arith in
      let (end, count) = read-write_candidates cs rest parsed' s' ok.1 room in
      let result : Reads (c ∷ cs) parsed s
          (read_candidates layout (length cs) (write_candidates layout cs ++ rest) parsed' s') =
        (
          end
              ∙ with_remotes_of s s' s'.remote_candidates
                  (take 16 (s'.remote_candidates ++ map received cs)) others
              ∙ with_remotes s more,
          omega (arith, count, one, size),
        ) in
      subst (Reads (c ∷ cs) parsed s)
        (sym (
          ap (λ b. read_candidates layout (suc (length cs)) b parsed s)
            {x = write_candidates layout (c ∷ cs) ++ rest}
            {y = written c (write_candidates layout cs ++ rest)} (simp append_assoc)
          ∙ read_round (length cs) c (write_candidates layout cs ++ rest) parsed s ok.0))
        result

  length-write_candidates :
      (cs : List IceCandidate) → length (write_candidates layout cs) ≡ length cs * 7
  unfolding write_candidates
  length-write_candidates [] = refl
  length-write_candidates (c ∷ cs) = omega (
    arith,
    length-append (layout.bytes32 c.ip) (layout.bytes16 c.port ++ write_candidates layout cs),
    length-append (layout.bytes16 c.port) (write_candidates layout cs),
    layout.size32 c.ip,
    layout.size16 c.port,
    length-write_candidates cs,
  )

  parse_counted :
      (r : IceSession) (n : ℕ) (body : List ℕ)
      → n * 7 ≤ length body
      → parse_candidates layout r (n ∷ body)
        ≡ (let (parsed, s') = read_candidates layout n body 0 r in (some parsed, s'))
  unfolding parse_candidates
  parse_counted r n body enough =
      let some_bytes : ltb (suc (length body)) 1 ≡ false = ground arith in
      let whole : ltb (suc (length body)) (1 + n * 7) ≡ false = ground arith in
      rw (some_bytes, whole) refl

  -- A payload that IceSerializeCandidates writes fits its buffer, and IceParseCandidates adds the
  -- sender's candidates, as far as 16 places reach, to the receiver and returns how many, for
  -- candidates within their fields and a memory layout that gives back the words it stores.
  pub parse-serialize_candidates :
      (sender receiver : IceSession) (buf_size : ℕ) (buf rest : List ℕ)
      → All IsCandidate sender.local_candidates
      → length sender.local_candidates ≤ 16
      → length receiver.remote_candidates ≤ 16
      → serialize_candidates layout sender buf_size ≡ some buf
      → let all = receiver.remote_candidates ++ map received sender.local_candidates in
        let r = parse_candidates layout receiver (buf ++ rest) in
        (length buf ≡ 1 + 7 * length sender.local_candidates)
        × (length buf ≤ buf_size)
        × (r.1 ≡ record receiver { remote_candidates = take 16 all })
        × (r.0 ≡ some (length (take 16 all) - length receiver.remote_candidates))
  unfolding serialize_candidates parse_candidates
  parse-serialize_candidates sender receiver buf_size buf rest ok few room sent =
      let cs = sender.local_candidates in
      elim (Bool-cases (ltb buf_size (1 + length cs * 7))) [
        | inl small ↦ absurd (ground arith)
        | inr fits ↦
            let is_buf : (length cs % 256) ∷ write_candidates layout cs ≡ buf = ground arith in
            let size : length buf ≡ 1 + length cs * 7 =
              omega (arith, ap length is_buf, length-write_candidates cs) in
            let same : buf ++ rest ≡ length cs ∷ (write_candidates layout cs ++ rest) =
              ap (λ b. b ++ rest) (sym is_buf)
              ∙ ap (λ (k : ℕ). k ∷ (write_candidates layout cs ++ rest)) (omega arith) in
            let parsed =
              ap (parse_candidates layout receiver) same
              ∙ parse_counted receiver (length cs) (write_candidates layout cs ++ rest) (
                  omega (
                    arith,
                    length-append (write_candidates layout cs) rest,
                    length-write_candidates cs,
                  )) in
            let (end, count) = read-write_candidates cs rest 0 receiver ok room in
            (
              omega (arith, size),
              ground (arith, size),
              ap (λ r. r.1) parsed ∙ end,
              ap (λ r. r.0) parsed
                  ∙ ap some (omega (arith, count, ap (λ r. length r.remote_candidates) end)),
            )
      ]
