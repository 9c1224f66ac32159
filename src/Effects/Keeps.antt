-- ===== src/Effects/Keeps.antt =====
-- A relation between the tables before and after that every action respects, with one rule for
-- each way to build an action; `search` walks a `do` block by these rules.
use mathlib.Core.Path.{subst}
use rezuscloud.Prelude.{◌≡◌, ◌≤◌, arith, refl, sym, ◌∙◌, Bool, true, false, String, if◌then◌else◌}
use rezuscloud.Effects.Core.{
  Error, Result, ok, err, Db, Exec, pure, raise, lift, attempt, context, query, exec, modify, gets,
  now, ◌>>=◌, continue, commit, wrapped,
}

pub record IsPreorder {T : Type 0} (R : T → T → Type 0) : Type 0 where
  pub same : (t : T) → R t t
  pub trans : (t u v : T) → R t u → R u v → R t v

-- The clock is the same, and no reading is taken back.
abbrev pub IsOnward : {T : Type 0} → Db T → Db T → Type 0
IsOnward d d' = (d'.clock ≡ d.clock) × (d.readings ≤ d'.readings)

unmoved : {T : Type 0} (d : Db T) → IsOnward d d
unmoved d = (refl, omega arith)

IsOnward-trans : {T : Type 0} (d d' d'' : Db T) → IsOnward d d' → IsOnward d' d'' → IsOnward d d''
IsOnward-trans d d' d'' h k = (k.0 ∙ h.0, omega arith)

-- Whether `m` returns a value or an error, the tables that it leaves are `R`-related to those it
-- found, and the environment's choices, of failures and of times, are not the action's to change.
pub record Keeps {T A : Type 0} (R : T → T → Type 0) (m : Exec T A) : Type 0 where
  pub at : (d : Db T) → R d.tables (m d).1.tables
  pub env : (d : Db T) → (m d).1.faulty ≡ d.faulty
  pub time : (d : Db T) → IsOnward d (m d).1

module _ {T : Type 0} {R : T → T → Type 0} (o : IsPreorder R) where
  module _ {A : Type 0} where
    pub Keeps-pure : (a : A) → Keeps R (pure a)
    Keeps-pure a = record { at = λ d. o.same d.tables; env = λ d. refl; time = unmoved }

    pub Keeps-raise : (e : Error) → Keeps R (raise {A = A} e)
    Keeps-raise e = record { at = λ d. o.same d.tables; env = λ d. refl; time = unmoved }

    pub Keeps-lift : (r : Result A) → Keeps R (lift r)
    Keeps-lift r = record { at = λ d. o.same d.tables; env = λ d. refl; time = unmoved }

    pub Keeps-query : (f : T → Result A) → Keeps R (query f)
    unfolding query
    Keeps-query f = record {
      at = λ d. o.same d.tables;
      env = λ d. refl;
      time = λ d. (refl, omega arith);
    }

    pub Keeps-gets : (f : T → A) → Keeps R (gets f)
    unfolding gets
    Keeps-gets f = record { at = λ d. o.same d.tables; env = λ d. refl; time = unmoved }

    commit_keeps :
        (t : T) (b : Bool) (d : Db T) (rt : Result A × T)
        → d.tables ≡ t
        → R t rt.1
        → R t (commit b d rt).1.tables
    commit_keeps t true d rt e h = rw e (o.same t)
    commit_keeps t false d rt e h = h

    commit_env : (b : Bool) (d : Db T) (rt : Result A × T) → (commit b d rt).1.faulty ≡ d.faulty
    commit_env true d rt = refl
    commit_env false d rt = refl

    commit_time : (b : Bool) (d : Db T) (rt : Result A × T) → IsOnward d (commit b d rt).1
    commit_time true d rt = unmoved d
    commit_time false d rt = (refl, omega arith)

    pub Keeps-exec : (f : T → Result A × T) → ((t : T) → R t (f t).1) → Keeps R (exec f)
    unfolding exec
    Keeps-exec f h = record {
      at = λ d. commit_keeps d.tables _ _ (f d.tables) refl (h d.tables);
      env = λ d. commit_env (d.faulty d.statements) _ (f d.tables);
      time = λ d. commit_time (d.faulty d.statements) _ (f d.tables);
    }

    pub Keeps-attempt : (m : Exec T A) → Keeps R m → Keeps R (attempt m)
    Keeps-attempt m k = record { at = λ d. k.at d; env = λ d. k.env d; time = λ d. k.time d }

    pub Keeps-context : (c : String) (m : Exec T A) → Keeps R m → Keeps R (context c m)
    Keeps-context c m k = record { at = λ d. k.at d; env = λ d. k.env d; time = λ d. k.time d }

    pub Keeps-if :
        (b : Bool) (m n : Exec T A) → Keeps R m → Keeps R n → Keeps R (if b then m else n)
    Keeps-if true m n km kn = km
    Keeps-if false m n km kn = kn

  pub Keeps-now : Keeps R now
  unfolding now
  Keeps-now = record { at = λ d. o.same d.tables; env = λ d. refl; time = λ d. (refl, omega arith) }

  pub Keeps-modify : (f : T → T) → ((t : T) → R t (f t)) → Keeps R (modify f)
  unfolding modify
  Keeps-modify f h = record {
    at = λ d. h d.tables;
    env = λ d. refl;
    time = λ d. (refl, omega arith);
  }

  module _ {A B : Type 0} where
    continue_keeps :
        (t : T) (r : Result A) (f : A → Exec T B) (d : Db T)
        → R t d.tables
        → ((a : A) → Keeps R (f a))
        → R t (continue r f d).1.tables
    continue_keeps t (ok a) f d h k = o.trans t d.tables _ h ((k a).at d)
    continue_keeps t (err e) f d h k = h

    continue_env :
        (r : Result A) (f : A → Exec T B) (d : Db T)
        → ((a : A) → Keeps R (f a))
        → (continue r f d).1.faulty ≡ d.faulty
    continue_env (ok a) f d k = (k a).env d
    continue_env (err e) f d k = refl

    continue_time :
        (r : Result A) (f : A → Exec T B) (d : Db T)
        → ((a : A) → Keeps R (f a))
        → IsOnward d (continue r f d).1
    continue_time (ok a) f d k = (k a).time d
    continue_time (err e) f d k = unmoved d

    pub Keeps-bind :
        (m : Exec T A) (f : A → Exec T B)
        → Keeps R m
        → ((a : A) → Keeps R (f a))
        → Keeps R (m >>= f)
    Keeps-bind m f km kf = record {
      at = λ d. continue_keeps d.tables (m d).0 f (m d).1 (km.at d) kf;
      env = λ d. continue_env (m d).0 f (m d).1 kf ∙ km.env d;
      time = λ d.
          IsOnward-trans d (m d).1 (continue (m d).0 f (m d).1).1 (km.time d)
            (continue_time (m d).0 f (m d).1 kf);
    }

  -- As `Keeps-bind`, where what follows need only hold for the values that `m` can return.
  module _ {A B : Type 0} {P : A → Type 0} where
    pub Keeps-bind_post :
        (m : Exec T A) (f : A → Exec T B)
        → Keeps R m
        → ((d : Db T) (a : A) → (m d).0 ≡ ok a → P a)
        → ((a : A) → P a → Keeps R (f a))
        → Keeps R (m >>= f)
    Keeps-bind_post m f km post kf = record {
      at = λ d. go d.tables (m d).0 (m d).1 (km.at d) (post d);
      env = λ d. go_env (m d).0 (m d).1 (post d) ∙ km.env d;
      time = λ d.
          IsOnward-trans d (m d).1 (continue (m d).0 f (m d).1).1 (km.time d)
            (go_time (m d).0 (m d).1 (post d));
    }
      where
        go :
            (t : T) (r : Result A) (d : Db T)
            → R t d.tables
            → ((a : A) → r ≡ ok a → P a)
            → R t (continue r f d).1.tables
        go t (ok a) d h holds = o.trans t d.tables _ h ((kf a (holds a refl)).at d)
        go t (err e) d h holds = h

        go_env :
            (r : Result A) (d : Db T)
            → ((a : A) → r ≡ ok a → P a)
            → (continue r f d).1.faulty ≡ d.faulty
        go_env (ok a) d holds = (kf a (holds a refl)).env d
        go_env (err e) d holds = refl

        go_time :
            (r : Result A) (d : Db T) → ((a : A) → r ≡ ok a → P a) → IsOnward d (continue r f d).1
        go_time (ok a) d holds = (kf a (holds a refl)).time d
        go_time (err e) d holds = unmoved d

pub ok-injective : {A : Type 0} {a b : A} → ok a ≡ ok b → b ≡ a
ok-injective e = cc

pub wrapped-ok : {A : Type 0} (c : String) (r : Result A) {a : A} → wrapped c r ≡ ok a → r ≡ ok a
wrapped-ok c (ok b) e = e
wrapped-ok c (err f) e = absurd (cc)

-- Every value that `m` returns satisfies `P`.
pub record Returns {T A : Type 0} (P : A → Type 0) (m : Exec T A) : Type 0 where
  pub post : (d : Db T) (a : A) → (m d).0 ≡ ok a → P a

module _ {T A : Type 0} {P : A → Type 0} where
  pub Returns-pure : (a : A) → P a → Returns {T = T} P (pure a)
  Returns-pure a h = record { post = λ d b e. subst P (sym (ok-injective e)) h }

  pub Returns-context : (c : String) (m : Exec T A) → Returns P m → Returns P (context c m)
  Returns-context c m r = record { post = λ d a e. r.post d a (wrapped-ok c (m d).0 e) }

module _ {T A B : Type 0} {P : B → Type 0} where
  continue_post :
      (r : Result A) (f : A → Exec T B) (d : Db T)
      → ((a : A) → Returns P (f a))
      → (b : B) → (continue r f d).0 ≡ ok b
      → P b
  continue_post (ok a) f d post b e = (post a).post d b e
  continue_post (err c) f d post b e = absurd (cc)

  pub Returns-bind :
      (m : Exec T A) (f : A → Exec T B) → ((a : A) → Returns P (f a)) → Returns P (m >>= f)
  Returns-bind m f h = record { post = λ d b e. continue_post (m d).0 f (m d).1 h b e }

pub ruleset keeps_rules = (
  Keeps-pure, Keeps-raise, Keeps-lift, Keeps-query, Keeps-gets, Keeps-exec, Keeps-attempt,
  Keeps-context, Keeps-if, Keeps-now, Keeps-modify, Keeps-bind,
)

-- The relation that holds of any two: what an action keeps of it is its environment alone.
abbrev pub Anything : {T : Type 0} → T → T → Type 0
Anything t u = Unit

pub Anything-preorder : {T : Type 0} → IsPreorder (Anything {T = T})
Anything-preorder = record { same = λ t. tt; trans = λ t u v f g. tt }

pub Keeps-Anything :
    {T A : Type 0} {R : T → T → Type 0} {m : Exec T A} → Keeps R m → Keeps Anything m
Keeps-Anything k = record { at = λ d. tt; env = k.env; time = k.time }
