-- ===== src/Daemon/Jobs/Accounts.antt =====
-- daemon/main.cpp: active_processes counts the slots of the clients at work.
pub mod End
pub mod Start
pub mod Messages
pub mod Clear
pub mod Environments
pub mod Reach
pub mod Rounds
use icecream.Base.{
  ℕ, ◌≡◌, inl, inr, ◌+◌, ◌%◌, sym, true, false, Bool-cases, ◌||◌, none, some, List, [], ◌∷◌, All,
  Elem, ◌==◌, if◌then◌else◌, if_of_both, if_of_each, subst, arith,
}
use icecream.Daemon.{Client, is_status}
use icecream.Daemon.{linkjob, clientwork}
use icecream.Job.{u32}
use icecream.Daemon.Jobs.{Host, Daemon, slots, find_client, with_client, erase_client}

-- The slots that a client holds.
abbrev pub held : Host → Client → ℕ
held h c = if is_status clientwork c then slots h c else 0

abbrev pub all_held : Host → List Client → ℕ
all_held h [] = 0
all_held h (c ∷ cs) = held h c + all_held h cs

-- Only a local job that waits or runs may be marked as one for all slots.
abbrev pub MayBeFull : Client → Type 0
MayBeFull c = c.fulljob ≡ true → (is_status linkjob c || is_status clientwork c) ≡ true

abbrev pub UniqueChannels : List Client → Type 0
UniqueChannels [] = Unit
UniqueChannels (c ∷ cs) = (find_client c.channel cs ≡ none) × UniqueChannels cs

-- active_processes, an `unsigned int`, is the sum of the slots held, and the channels differ.
abbrev pub IsBooked : Host → List Client → ℕ → Type 0
IsBooked h cs n = (n ≡ all_held h cs % u32) × All MayBeFull cs × UniqueChannels cs

abbrev pub IsAccounted : Host → Daemon → Type 0
IsAccounted h d = IsBooked h d.clients d.active_processes

module _ (h : Host) (k : ℕ) where
  pub held-with_client :
      (f : Client → Client) (cs : List Client) (c : Client)
      → find_client k cs ≡ some c
      → all_held h (with_client k f cs) + held h c ≡ all_held h cs + held h (f c)
  held-with_client f [] c q = cc
  held-with_client f (x ∷ cs) c q = grind (arith, held-with_client f cs c)

  pub held-erase_client :
      (cs : List Client) (c : Client)
      → find_client k cs ≡ some c
      → all_held h (erase_client k cs) + held h c ≡ all_held h cs
  held-erase_client [] c q = cc
  held-erase_client (x ∷ cs) c q = grind (arith, held-erase_client cs c)

  pub find_client-channel :
      (cs : List Client) (c : Client) → find_client k cs ≡ some c → c.channel ≡ k
  find_client-channel [] c q = cc
  find_client-channel (x ∷ cs) c q = grind (arith, find_client-channel cs c)

  found_head :
      (x : Client) (cs : List Client) (c : Client)
      → find_client k (x ∷ cs) ≡ some c
      → (x.channel == k) ≡ true
      → x ≡ c
  found_head x cs c q hit = grind arith

  found_later :
      (x : Client) (cs : List Client) (c : Client)
      → find_client k (x ∷ cs) ≡ some c
      → (x.channel == k) ≡ false
      → find_client k cs ≡ some c
  found_later x cs c q miss = grind arith

  pub find_client-All :
      (P : Client → Type 0) (cs : List Client) (c : Client)
      → find_client k cs ≡ some c
      → All P cs
      → P c
  find_client-All P [] c q a = cc
  find_client-All P (x ∷ cs) c q a = elim (Bool-cases (x.channel == k)) [
    | inl hit ↦ subst P (found_head x cs c q hit) a.0
    | inr miss ↦ find_client-All P cs c (found_later x cs c q miss) a.1
  ]

  find_client-with_client :
      (j : ℕ) (f : Client → Client) (cs : List Client)
      → ((c : Client) → (f c).channel ≡ c.channel)
      → find_client j cs ≡ none
      → find_client j (with_client k f cs) ≡ none
  find_client-with_client j f [] g q = q
  find_client-with_client j f (x ∷ cs) g q = grind (arith, find_client-with_client j f cs g, g x)

  pub with_client-UniqueChannels :
      (f : Client → Client) (cs : List Client)
      → ((c : Client) → (f c).channel ≡ c.channel)
      → UniqueChannels cs
      → UniqueChannels (with_client k f cs)
  with_client-UniqueChannels f [] g u = tt
  with_client-UniqueChannels f (x ∷ cs) g u =
      if_of_both UniqueChannels (x.channel == k) (f x ∷ cs) (x ∷ with_client k f cs)
        (subst (λ j. find_client j cs ≡ none) (sym (g x)) u.0, u.1)
        (find_client-with_client x.channel f cs g u.0, with_client-UniqueChannels f cs g u.1)

  pub with_client-All :
      (P : Client → Type 0) (f : Client → Client) (cs : List Client) (c : Client)
      → find_client k cs ≡ some c
      → P (f c)
      → All P cs
      → All P (with_client k f cs)
  with_client-All P f [] c q p a = tt
  with_client-All P f (x ∷ cs) c q p a =
      if_of_each (All P) (x.channel == k) _ _
        (λ hit. (subst (λ y. P (f y)) (sym (found_head x cs c q hit)) p, a.1))
        (λ miss. (a.0, with_client-All P f cs c (found_later x cs c q miss) p a.1))

  pub find-with_client :
      (f : Client → Client) (cs : List Client) (c : Client)
      → ((x : Client) → (f x).channel ≡ x.channel)
      → find_client k cs ≡ some c
      → find_client k (with_client k f cs) ≡ some (f c)
  find-with_client f [] c g q = cc
  find-with_client f (x ∷ cs) c g q = grind (arith, find-with_client f cs c g, g x)

  pub erase_client-All :
      (P : Client → Type 0) (cs : List Client) → All P cs → All P (erase_client k cs)
  erase_client-All P [] a = tt
  erase_client-All P (x ∷ cs) a =
      if_of_both (All P) (x.channel == k) cs (x ∷ erase_client k cs) a.1
        (a.0, erase_client-All P cs a.1)

  find_client-erase_client :
      (j : ℕ) (cs : List Client)
      → find_client j cs ≡ none
      → find_client j (erase_client k cs) ≡ none
  find_client-erase_client j [] q = q
  find_client-erase_client j (x ∷ cs) q = grind (arith, find_client-erase_client j cs)

  pub erase_client-UniqueChannels :
      (cs : List Client) → UniqueChannels cs → UniqueChannels (erase_client k cs)
  erase_client-UniqueChannels [] u = tt
  erase_client-UniqueChannels (x ∷ cs) u =
      if_of_both UniqueChannels (x.channel == k) cs (x ∷ erase_client k cs) u.1
        (find_client-erase_client x.channel cs u.0, erase_client-UniqueChannels cs u.1)

pub find_client_unique :
    (cs : List Client) (c : Client)
    → UniqueChannels cs
    → Elem c cs
    → find_client c.channel cs ≡ some c
find_client_unique [] c u e = elim e [ ]
find_client_unique (x ∷ cs) c u e = elim e [
  | inl q ↦ grind arith
  | inr r ↦ grind (arith, find_client_unique cs c u.1 r)
]

settled :
    (n n1 s t w v : ℕ)
    → n ≡ s % u32
    → t + w ≡ s + v
    → (n1 + w) % u32 ≡ (n + v) % u32
    → n1 ≡ n1 % u32
    → n1 ≡ t % u32
settled n n1 s t w v a b c e = omega (arith, a, b, c, e)

-- A change of one client, and of active_processes by the slots that it takes or gives back.
pub change-IsBooked :
    (h : Host) (k : ℕ) (f : Client → Client) (cs : List Client) (c : Client) (n n1 : ℕ)
    → IsBooked h cs n
    → find_client k cs ≡ some c
    → ((x : Client) → (f x).channel ≡ x.channel)
    → MayBeFull (f c)
    → (n1 + held h c) % u32 ≡ (n + held h (f c)) % u32
    → n1 ≡ n1 % u32
    → IsBooked h (with_client k f cs) n1
change-IsBooked h k f cs c n n1 a q g m e e1 = (
  settled n n1 _ _ (held h c) (held h (f c)) a.0 (held-with_client h k f cs c q) e e1,
  with_client-All h k MayBeFull f cs c q m a.1,
  with_client-UniqueChannels h k f cs g a.2,
)

pub erase-IsBooked :
    (h : Host) (k : ℕ) (cs : List Client) (c : Client) (n n1 : ℕ)
    → IsBooked h cs n
    → find_client k cs ≡ some c
    → (n1 + held h c) % u32 ≡ n % u32
    → n1 ≡ n1 % u32
    → IsBooked h (erase_client k cs) n1
erase-IsBooked h k cs c n n1 a q e e1 = (
  settled n n1 _ _ (held h c) 0 a.0 (omega (arith, held-erase_client h k cs c q)) (omega (arith, e))
      e1,
  erase_client-All h k MayBeFull cs a.1,
  erase_client-UniqueChannels h k cs a.2,
)
