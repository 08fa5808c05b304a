-- ===== src/Sock/Statistics/Levels.antt =====
-- The levels among the statistics of a socket (nn_sock_stat_increment of src/core/sock.c).
use nanomsg_copy.Prelude.{
  ℕ, suc, ◌+◌, ◌-◌, ◌^◌, ◌<◌, ◌≡◌, refl, ap, sym, false, returned, arith, >>=-returned,
}
use nanomsg_copy.Prelude.Int.{ℤ, pos, negsuc, ltb_ℤ, ◌≤ℤ◌, ◌+ℤ◌, ◌-ℤ◌}
use nanomsg_copy.Sock.{Sock, Protocol, Counters}
use nanomsg_copy.Sock.Statistics.{
  Statistic, count, level, priority, stat_increment, to_int, add, rm,
}

-- A connection count, and the priority that is in use, -1 for none.
abbrev pub IsLevel : ℤ → Type 0
IsLevel n = (pos 0 ≤ℤ n) × (n ≤ℤ pos (2 ^ 31 - 1))

pub record IsValid (s : Counters) : Type 0 where
  pub current_connections : IsLevel s.current_connections
  pub inprogress_connections : IsLevel s.inprogress_connections
  pub current_ep_errors : IsLevel s.current_ep_errors
  pub current_snd_priority :
      (negsuc 0 ≤ℤ s.current_snd_priority) × (s.current_snd_priority ≤ℤ pos 16)

abbrev pub HasRoom : Counters → ℤ → Type 0
HasRoom s increment =
    ((s.current_connections +ℤ increment) ≤ℤ pos (2 ^ 31 - 1))
    × ((s.inprogress_connections +ℤ increment) ≤ℤ pos (2 ^ 31 - 1))
    × ((s.current_ep_errors +ℤ increment) ≤ℤ pos (2 ^ 31 - 1))

to_int-level : (n : ℤ) → IsLevel n → to_int n ≡ n
to_int-level (pos n) h = ground arith
to_int-level (negsuc n) h = absurd (omega arith)

level-IsLevel :
    (increment n : ℤ) {m : ℤ}
    → level increment n ≡ returned m
    → IsLevel n
    → (n +ℤ increment) ≤ℤ pos (2 ^ 31 - 1)
    → IsLevel m
unfolding level ◌+ℤ◌ ◌-ℤ◌
level-IsLevel (pos i) (pos n) e h k = ground (arith, to_int-level (pos (n + i)))
level-IsLevel (negsuc i) (pos n) e h k = ground (arith, to_int-level (pos (n - suc i)))
level-IsLevel i (negsuc n) e h k = absurd (omega arith)

-- A call of stat_increment that passes its assertions, with room left in the int levels, keeps the
-- connection counts and the endpoint error count between 0 and INT_MAX, and the send priority
-- between -1 and 16.
pub stat_increment-IsValid :
    (name : Statistic) (increment : ℤ) (s : Counters) {s' : Counters}
    → stat_increment name increment s ≡ returned s'
    → IsValid s
    → HasRoom s increment
    → IsValid s'
unfolding stat_increment count priority
stat_increment-IsValid Statistic.current_connections increment s e h k =
    let (n, e1, e2) =
      >>=-returned (level increment s.current_connections)
        (λ n. returned (record s { current_connections = n })) e in
    let l = level-IsLevel increment s.current_connections e1 h.current_connections (omega arith) in
    grind arith
stat_increment-IsValid Statistic.inprogress_connections increment s e h k =
    let (n, e1, e2) =
      >>=-returned (level increment s.inprogress_connections)
        (λ n. returned (record s { inprogress_connections = n })) e in
    let l =
      level-IsLevel increment s.inprogress_connections e1 h.inprogress_connections (omega arith) in
    grind arith
stat_increment-IsValid Statistic.current_ep_errors increment s e h k =
    let (n, e1, e2) =
      >>=-returned (level increment s.current_ep_errors)
        (λ n. returned (record s { current_ep_errors = n })) e in
    let l = level-IsLevel increment s.current_ep_errors e1 h.current_ep_errors (omega arith) in
    grind arith
stat_increment-IsValid Statistic.current_snd_priority (pos i) s e h k = grind arith
stat_increment-IsValid Statistic.current_snd_priority (negsuc i) s e h k = grind arith
stat_increment-IsValid name increment s e h k = grind arith

level-up : (n : ℕ) {c : ℤ} → c ≡ pos n → n < 2 ^ 31 - 1 → level (pos 1) c ≡ returned (pos (suc n))
unfolding level ◌+ℤ◌ ◌-ℤ◌
level-up n e h = rw e (ground (arith, to_int-level (pos (suc n))))

pub ltb_ℤ-pos : (r : ℕ) → ltb_ℤ (pos r) (pos 0) ≡ false
ltb_ℤ-pos r = ground arith

level-down : (n : ℕ) → n < 2 ^ 31 - 1 → level (negsuc 0) (pos (suc n)) ≡ returned (pos n)
unfolding level ◌+ℤ◌ ◌-ℤ◌
level-down n h = ground (arith, to_int-level (pos n))

level-down_of :
    (n : ℕ) {c : ℤ} → c ≡ pos (suc n) → n < 2 ^ 31 - 1 → level (negsuc 0) c ≡ returned (pos n)
level-down_of n e h = rw e (level-down n h)

module _ {S O Msg : Type 0} (vfptr : Protocol S Msg) where
  -- Below INT_MAX connections, for a pipe that the protocol accepts, nn_sock_add and then nn_sock_rm
  -- both pass their assertions, and leave all statistics as they were; between the two the count of
  -- connections is one higher, and the protocol has seen exactly the two calls.
  pub rm-add :
      (pipe n r : ℕ) (self : Sock S O)
      → self.statistics.current_connections ≡ pos n
      → n < 2 ^ 31 - 1
      → (vfptr.add pipe self.sockbase).0 ≡ pos r
      → (s1 : Sock S O) × (s2 : Sock S O) × (add vfptr pipe self ≡ returned (pos r, s1))
        × (s1.statistics.current_connections ≡ pos (suc n))
        × (rm vfptr pipe s1 ≡ returned s2)
        × (s2.statistics ≡ self.statistics)
        × (s2.sockbase ≡ vfptr.rm pipe (vfptr.add pipe self.sockbase).1)
  unfolding add rm stat_increment
  rm-add pipe n r self h k e =
      let s1 : Sock S O = record self {
        sockbase = (vfptr.add pipe self.sockbase).1;
        statistics = record self.statistics { current_connections = pos (suc n) };
      } in
      let s2 : Sock S O = record s1 {
        sockbase = vfptr.rm pipe s1.sockbase;
        statistics = record self.statistics { current_connections = pos n };
      } in
      (
        s1,
        s2,
        simp (e, ltb_ℤ-pos r, level-up n h k),
        refl,
        rw (level-down n k),
        ap (λ c. record self.statistics { current_connections = c }) (sym h),
        refl,
      )

  pub rm-connected :
      (pipe n : ℕ) (self : Sock S O)
      → self.statistics.current_connections ≡ pos (suc n)
      → n < 2 ^ 31 - 1
      → rm vfptr pipe self
        ≡ returned (record self {
          sockbase = vfptr.rm pipe self.sockbase;
          statistics = record self.statistics { current_connections = pos n };
        })
  unfolding rm stat_increment
  rm-connected pipe n self h k = simp (level-down_of n h k)
