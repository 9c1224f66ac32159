-- ===== src/Tfexec/Trace.antt =====
-- The commands that a piece of code runs (Run in internal/tfexec/exec.go), in their order.
use mathlib.Core.List.{append-nil, append_assoc, map-append}
use rezuscloud.Prelude.{
  ◌≡◌, refl, sym, ap, ◌∙◌, Bool, true, false, Option, none, some, String, List, [], ◌∷◌, ◌++◌, map,
  if◌then◌else◌,
}
use rezuscloud.Effects.{
  Db, Result, ok, err, Error, Exec, context, wrapped, continue, gets, modify, ◌>>=◌,
}
use rezuscloud.Effects.Keeps.{IsPreorder, Keeps, Keeps-gets}
use rezuscloud.Tfexec.World.{World, Outside, Command, Event, ended}
use rezuscloud.Tfexec.Run.{finish}

-- The log is as it was.
abbrev pub IsQuiet : World → World → Type 0
IsQuiet v w = w.log ≡ v.log

pub IsQuiet-preorder : IsPreorder IsQuiet
IsQuiet-preorder = record { same = λ w. refl; trans = λ u v w e f. f ∙ e }

abbrev pub done : Command → Event
done c = record { command = c; succeeded = true }

-- What is run of a list of commands when there is an error: the commands in order, each of which
-- succeeded but the last, which may have failed.
abbrev pub IsCut : List Command → List Event → Type 0
IsCut l [] = Unit
IsCut [] (e ∷ es) = ⊥
IsCut (c ∷ l) (e ∷ es) = (e.command ≡ c) × (if e.succeeded then IsCut l es else es ≡ [])

-- A value is returned when all were run, and all succeeded.
abbrev pub Verdict : {A : Type 0} → Result A → List Command → List Event → Type 0
Verdict (ok a) l es = es ≡ map done l
Verdict (err e) l es = IsCut l es

-- `m` runs the commands `l`.
abbrev pub Traced : {A : Type 0} → List Command → World → Result A → World → Type 0
Traced l v r w = (es : List Event) × (w.log ≡ v.log ++ es) × Verdict r l es

pub record Emits {A : Type 0} (l : List Command) (m : Exec World A) : Type 0 where
  pub at : (d : Db World) → Traced l d.tables (m d).0 (m d).1.tables

pub Traced-from :
    {A : Type 0} (l : List Command) (u v : World) (r : Result A) (w : World)
    → v.log ≡ u.log
    → Traced l v r w
    → Traced l u r w
Traced-from l u v r w e (es, log, verdict) = (es, log ∙ ap (λ (x : List Event). x ++ es) e, verdict)

IsCut-append : (l k : List Command) (es : List Event) → IsCut l es → IsCut (l ++ k) es
IsCut-append [] k [] h = tt
IsCut-append [] k (e ∷ es) h = absurd h
IsCut-append (c ∷ l) k [] h = tt
IsCut-append (c ∷ l) k (e ∷ es) h = (h.0, go e.succeeded (IsCut-append l k es) h.1)
  where
    go :
        (b : Bool)
        → (IsCut l es → IsCut (l ++ k) es)
        → (if b then IsCut l es else es ≡ [])
        → (if b then IsCut (l ++ k) es else es ≡ [])
    go true ih q = ih q
    go false ih q = q

IsCut-done : (l k : List Command) (es : List Event) → IsCut k es → IsCut (l ++ k) (map done l ++ es)
IsCut-done [] k es h = h
IsCut-done (c ∷ l) k es h = (refl, IsCut-done l k es h)

module _ {A : Type 0} where
  pub Emits-quiet : (m : Exec World A) → Keeps IsQuiet m → Emits [] m
  Emits-quiet m k = record {
    at = λ d. ([], k.at d ∙ sym (append-nil d.tables.log), verdict (m d).0);
  }
    where
      verdict : (r : Result A) → Verdict r [] []
      verdict (ok a) = refl
      verdict (err e) = tt

  pub Emits-from :
      (l : List Command) (m : Exec World A) (u : World) (d : Db World)
      → d.tables.log ≡ u.log
      → Emits l m
      → Traced l u (m d).0 (m d).1.tables
  Emits-from l m u d e h = Traced-from l u d.tables (m d).0 (m d).1.tables e (h.at d)

  pub Emits-context :
      (c : String) (l : List Command) (m : Exec World A) → Emits l m → Emits l (context c m)
  Emits-context c l m h = record {
    at = λ d. ((h.at d).0, (h.at d).1, go (h.at d).0 (m d).0 (h.at d).2);
  }
    where
      go : (es : List Event) (r : Result A) → Verdict r l es → Verdict (wrapped c r) l es
      go es (ok a) q = q
      go es (err e) q = q

  pub Emits-gets : (f : World → A) → Emits [] (gets f)
  Emits-gets f = Emits-quiet (gets f) (Keeps-gets IsQuiet-preorder f)

module _ {A B : Type 0} (l k : List Command) where
  pub continue_emits :
      (v w : World) (r : Result A) (f : A → Exec World B) (d : Db World)
      → Traced l v r d.tables
      → ((a : A) → Emits k (f a))
      → Traced (l ++ k) v (continue r f d).0 (continue r f d).1.tables
  continue_emits v w (ok a) f d (es, log, all) h =
      let (fs, log', rest) = (h a).at d in
      (
        map done l ++ fs,
        log' ∙ ap (λ (x : List Event). x ++ fs) log ∙ rw (all, append_assoc) refl,
        go fs (f a d).0 rest,
      )
    where
      go : (fs : List Event) (r : Result B) → Verdict r k fs → Verdict r (l ++ k) (map done l ++ fs)
      go fs (ok b) q = rw q (sym (map-append done l k))
      go fs (err e) q = IsCut-done l k fs q
  continue_emits v w (err e) f d (es, log, cut) h = (es, log, IsCut-append l k es cut)

  pub Emits-bind :
      (m : Exec World A) (f : A → Exec World B)
      → Emits l m
      → ((a : A) → Emits k (f a))
      → Emits (l ++ k) (m >>= f)
  Emits-bind m f h hs = record {
    at = λ d. continue_emits d.tables d.tables (m d).0 f (m d).1 (h.at d) hs;
  }

pub Emits-finish :
    (o : Outside) (c : Command) (result : Option Error) → Emits (c ∷ []) (finish o c result)
unfolding finish modify ended
Emits-finish o c none = record { at = λ d. (done c ∷ [], refl, refl) }
Emits-finish o c (some e) = record {
  at = λ d. (record { command = c; succeeded = false } ∷ [], refl, (refl, refl));
}
