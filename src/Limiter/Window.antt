-- ===== src/Limiter/Window.antt =====
-- The limiter against the history of a client: the logins that were passed on.
use project_6_document_class.Base.{
  ℕ, ◌-◌, ◌≤◌, ◌≡◌, refl, ap, ◌∙◌, String, Bool, true, false, ◌&&◌, ◌==◌, eq_iff, List, [], ◌∷◌,
  ◌++◌, ltb, leb, if◌then◌else◌, select, length, length-append, arith, Bool-cases, inl, inr, ◌↔◌,
}
use project_6_document_class.Base.RowLaws.{select-append}
use mathlib.Core.List.{append_assoc, append-nil}
use project_6_document_class.Limiter.{
  login_max, login_win, Store, Request, Verdict, passed_on, too_many, address, recent,
  login_rate_limit,
}

-- The requests with the answers that they got, and the store at the end.
pub answers : List Request → Store → List (Request × Verdict) × Store
answers [] store = ([], store)
answers (r ∷ rs) store =
    let (v, store') = login_rate_limit r store in
    let (rest, last) = answers rs store' in ((r, v) ∷ rest, last)

abbrev pub is_login_of : String → Request → Bool
is_login_of ip r = r.path == "/auth/jwt/login" && address r.host == ip

abbrev passed : Verdict → Bool
passed passed_on = true
passed too_many = false

-- The times at which logins of `ip` were passed on.
pub pass_times : String → List (Request × Verdict) → List ℕ
pass_times ip [] = []
pass_times ip ((r, v) ∷ rest) =
    if is_login_of ip r && passed v then r.now ∷ pass_times ip rest else pass_times ip rest

-- The clock does not run backwards.
abbrev pub Ordered : ℕ → List Request → Type 0
Ordered t [] = Unit
Ordered t (r ∷ rs) = (t ≤ r.now) × Ordered r.now rs

abbrev pub last_time : ℕ → List Request → ℕ
last_time t [] = t
last_time t (r ∷ rs) = last_time r.now rs

recent-recent : (a b : ℕ) (ts : List ℕ) → a ≤ b → recent b (recent a ts) ≡ recent b ts
unfolding recent select
recent-recent a b [] h = refl
recent-recent a b (t ∷ ts) h = ground (arith, recent-recent a b ts h)

length-recent_anti : (a b : ℕ) (ts : List ℕ) → a ≤ b → length (recent b ts) ≤ length (recent a ts)
unfolding recent select
length-recent_anti a b [] h = omega arith
length-recent_anti a b (t ∷ ts) h = ground (arith, length-recent_anti a b ts h)

recent-append : (a : ℕ) (ts us : List ℕ) → recent a (ts ++ us) ≡ recent a ts ++ recent a us
unfolding recent
recent-append a ts us = select-append (λ t. ltb (a - t) login_win) ts us

length-recent_one : (a t : ℕ) → length (recent a (t ∷ [])) ≤ 1
unfolding recent select
length-recent_one a t = ground arith

-- From the time `t` on, the stored times count as the history does, and no window is over full.
record Agrees (t : ℕ) (times history : List ℕ) : Type 0 where
  same : (now : ℕ) → t ≤ now → recent now times ≡ recent now history
  bounded : (now : ℕ) → t ≤ now → length (recent now history) ≤ login_max

Agrees-later :
    {t u : ℕ} {times history : List ℕ} → t ≤ u → Agrees t times history → Agrees u times history
Agrees-later h a = record {
  same = λ now k. a.same now (omega arith);
  bounded = λ now k. a.bounded now (omega arith);
}

Agrees-refuse :
    {t : ℕ} {times history : List ℕ} → Agrees t times history → Agrees t (recent t times) history
Agrees-refuse {t} {times} a = record {
  same = λ now k. recent-recent t now times k ∙ a.same now k;
  bounded = a.bounded;
}

Agrees-pass :
    {t : ℕ} {times history : List ℕ}
    → Agrees t times history
    → leb login_max (length (recent t times)) ≡ false
    → Agrees t (recent t times ++ t ∷ []) (history ++ t ∷ [])
Agrees-pass {t} {times} {history} a room = record {
  same = λ now k. rw (recent-append, recent-append, recent-recent t now times k, a.same now k);
  bounded = λ now k.
      rw (recent-append, length-append)
        (ground (
          arith,
          ap length (a.same t (omega arith)),
          length-recent_anti t now history k,
          length-recent_one now t,
        ));
}

-- What one request of the client `ip` adds to the history.
abbrev added : String → Request → Verdict → List ℕ
added ip r v = if is_login_of ip r && passed v then r.now ∷ [] else []

step_other :
    (ip : String) (r : Request) (store : Store)
    → is_login_of ip r ≡ false
    → (login_rate_limit r store).1 ip ≡ store ip
unfolding login_rate_limit
step_other ip r store h = ground (arith, eq_iff ip (address r.host), eq_iff (address r.host) ip)

step_full :
    (ip : String) (r : Request) (store : Store)
    → is_login_of ip r ≡ true
    → leb login_max (length (recent r.now (store ip))) ≡ true
    → ((login_rate_limit r store).0 ≡ too_many)
      × ((login_rate_limit r store).1 ip ≡ recent r.now (store ip))
unfolding login_rate_limit
step_full ip r store h full = ground (arith, eq_iff ip (address r.host), eq_iff (address r.host) ip)

step_room :
    (ip : String) (r : Request) (store : Store)
    → is_login_of ip r ≡ true
    → leb login_max (length (recent r.now (store ip))) ≡ false
    → ((login_rate_limit r store).0 ≡ passed_on)
      × ((login_rate_limit r store).1 ip ≡ recent r.now (store ip) ++ r.now ∷ [])
unfolding login_rate_limit
step_room ip r store h room = ground (arith, eq_iff ip (address r.host), eq_iff (address r.host) ip)

step_Agrees :
    (ip : String) (r : Request) (store : Store) (history : List ℕ)
    → Agrees r.now (store ip) history
    → let (v, store') = login_rate_limit r store in
      Agrees r.now (store' ip) (history ++ added ip r v)
step_Agrees ip r store history a = elim (Bool-cases (is_login_of ip r)) [
  | inr other ↦ rw (other, step_other ip r store other, append-nil) a
  | inl login ↦ elim (Bool-cases (leb login_max (length (recent r.now (store ip))))) [
    | inl full ↦
        let s = step_full ip r store login full in
        rw (s.0, s.1, login, append-nil) (Agrees-refuse a)
    | inr room ↦
        let s = step_room ip r store login room in rw (s.0, s.1, login) (Agrees-pass a room)
  ]
]

pass_times-cons :
    (ip : String) (r : Request) (v : Verdict) (rest : List (Request × Verdict))
    → pass_times ip ((r, v) ∷ rest) ≡ added ip r v ++ pass_times ip rest
unfolding pass_times
pass_times-cons ip r v rest = ground arith

answers-Agrees :
    (ip : String) (rs : List Request) (t : ℕ) (store : Store) (history : List ℕ)
    → Agrees t (store ip) history
    → Ordered t rs
    → let (trace, store') = answers rs store in
      Agrees (last_time t rs) (store' ip) (history ++ pass_times ip trace)
unfolding answers
answers-Agrees ip [] t store history a o = unfold pass_times in rw append-nil a
answers-Agrees ip (r ∷ rs) t store history a o =
    let (v, store') = login_rate_limit r store in
    rw (pass_times-cons, ← append_assoc)
      (answers-Agrees ip rs r.now store' (history ++ added ip r v)
        (step_Agrees ip r store history (Agrees-later o.0 a)) o.1)

abbrev pub empty : Store
empty _ = []

-- The history of `ip` when the requests `rs` have been answered by a fresh process.
abbrev pub history_of : String → List Request → List ℕ
history_of ip rs = pass_times ip (answers rs empty).0

Agrees-empty :
    (ip : String) (rs : List Request)
    → Ordered 0 rs
    → Agrees (last_time 0 rs) ((answers rs empty).1 ip) (history_of ip rs)
Agrees-empty ip rs o = answers-Agrees ip rs 0 empty [] nothing o
  where
    nothing : Agrees 0 [] []
    nothing = record {
      same = λ now k. refl;
      bounded = λ now k. unfold recent select in omega arith;
    }

-- If the clock does not run backwards, then from a fresh process on, whatever the requests and
-- the clients, at most five logins of one address, successful or not, have been passed on in the
-- sixty seconds before any time from the last request on.
pub window_bound :
    (ip : String) (rs : List Request) (now : ℕ)
    → Ordered 0 rs
    → last_time 0 rs ≤ now
    → length (recent now (history_of ip rs)) ≤ login_max
window_bound ip rs now o h = (Agrees-empty ip rs o).bounded now h

-- If the clock does not run backwards, then after any requests to a fresh process a login is
-- refused exactly when at least five logins of its address, successful or not, were passed on in
-- the sixty seconds before it.
pub refused_iff_full :
    (rs : List Request) (r : Request)
    → Ordered 0 rs
    → last_time 0 rs ≤ r.now
    → r.path ≡ "/auth/jwt/login"
    → ((login_rate_limit r (answers rs empty).1).0 ≡ too_many)
      ↔ (login_max ≤ length (recent r.now (history_of (address r.host) rs)))
unfolding login_rate_limit
refused_iff_full rs r o h p =
    let a = ap length ((Agrees-empty (address r.host) rs o).same r.now h) in
    ground (arith, a, eq_iff r.path "/auth/jwt/login")
