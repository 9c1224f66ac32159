-- ===== src/Reconcile/Minting.antt =====
-- The binding tokens across renders (ensureBindingTokens in internal/reconcile/applier.go).
use rezuscloud.Prelude.{
  ℕ, suc, ◌≡◌, refl, sym, ap, ◌∙◌, inl, inr, true, false, String, List, [], ◌∷◌, ◌==◌, eq_refl, All,
  Bool-cases, text-cases,
}
use rezuscloud.Maps.{StringMap, get_text, insert, get_text-insert}
use rezuscloud.Effects.{Db, ok}
use rezuscloud.Tfexec.World.{World}
use rezuscloud.Reconcile.Keys.{binding_token_annotation}
use rezuscloud.Reconcile.Tokens.{Minted, new_binding_token, mint_key, mint_fresh, mint_keys}

abbrev pub token_in : StringMap → String → String
token_in annotations key = get_text annotations (binding_token_annotation key)

abbrev pub HasToken : StringMap → String → Type 0
HasToken annotations key = (token_in annotations key == "") ≡ false

-- The tokens that the annotations hold for the keys, over those that are there.
unfoldable pub reuse : StringMap → List String → StringMap → StringMap
reuse annotations [] tokens = tokens
reuse annotations (key ∷ keys) tokens =
    reuse annotations keys (insert key (token_in annotations key) tokens)

-- No call of the run fails.
abbrev pub IsSound : Db World → Type 0
IsSound d = (n : ℕ) → d.faulty n ≡ false

-- What the inner loop makes of its variables.
pub record IsMinted (keys : List String) (m m' : Minted) : Type 0 where
  pub settled : All (HasToken m'.annotations) keys
  pub tokens : m'.tokens ≡ reuse m'.annotations keys m.tokens
  pub stays :
      (key : String)
      → HasToken m.annotations key
      → token_in m'.annotations key ≡ token_in m.annotations key
  pub grows : m.changed ≡ true → m'.changed ≡ true
  pub unchanged : m'.changed ≡ false → m'.annotations ≡ m.annotations

module _ (draw : ℕ → String) where
  mint_key-held :
      (key : String) (m : Minted) (d : Db World)
      → HasToken m.annotations key
      → mint_key draw key m d
        ≡ (ok (record m { tokens = insert key (token_in m.annotations key) m.tokens }), d)
  unfolding mint_key
  mint_key-held key m d h = rw h refl

  abbrev pub freshened : String → String → Minted → Minted
  freshened tok key m = record {
    annotations = insert (binding_token_annotation key) tok m.annotations;
    tokens = insert key tok m.tokens;
    changed = true;
  }

  mint_key-fresh :
      (key : String) (m : Minted) (d : Db World)
      → IsSound d
      → (token_in m.annotations key == "") ≡ true
      → mint_key draw key m d
        ≡ (ok (freshened (draw d.statements) key m), record d { statements = suc d.statements })
  unfolding mint_key mint_fresh new_binding_token
  mint_key-fresh key m d fine h = rw (h, fine d.statements) refl

  -- A turn that found the token.
  IsMinted-held :
      (key : String) (keys : List String) (m m' : Minted)
      → HasToken m.annotations key
      → IsMinted keys (record m { tokens = insert key (token_in m.annotations key) m.tokens }) m'
      → IsMinted (key ∷ keys) m m'
  unfolding reuse
  IsMinted-held key keys m m' h i = record {
    settled = (rw (i.stays key h) h, i.settled);
    tokens =
        i.tokens
        ∙ ap (λ (t : String). reuse m'.annotations keys (insert key t m.tokens))
            (sym (i.stays key h));
    stays = i.stays;
    grows = i.grows;
    unchanged = i.unchanged;
  }

  -- A turn that drew it.
  IsMinted-fresh :
      (tok key : String) (keys : List String) (m m' : Minted)
      → (tok == "") ≡ false
      → (token_in m.annotations key == "") ≡ true
      → IsMinted keys (freshened tok key m) m'
      → IsMinted (key ∷ keys) m m'
  unfolding reuse
  IsMinted-fresh tok key keys m m' good h i = record {
    settled = (rw held_token good, i.settled);
    tokens =
        i.tokens
        ∙ ap (λ (t : String). reuse m'.annotations keys (insert key t m.tokens)) (sym held_token);
    stays = λ other has. i.stays other (rw (other_held other has) has) ∙ other_held other has;
    grows = λ e. i.grows refl;
    unchanged = λ e. absurd (let f = i.grows refl in cc);
  }
    where
      held : token_in (freshened tok key m).annotations key ≡ tok
      held =
          get_text-insert (binding_token_annotation key) tok (binding_token_annotation key)
            m.annotations
          ∙ rw (eq_refl (binding_token_annotation key)) refl

      held_token : token_in m'.annotations key ≡ tok
      held_token = i.stays key (rw held good) ∙ held

      other_held :
          (other : String)
          → HasToken m.annotations other
          → token_in (freshened tok key m).annotations other ≡ token_in m.annotations other
      other_held other has =
          elim (text-cases (binding_token_annotation key) (binding_token_annotation other)) [
            | inl e ↦ cc
            | inr e ↦
                get_text-insert (binding_token_annotation key) tok (binding_token_annotation other)
                  m.annotations
                ∙ rw e refl
          ]

  mint_keys-step :
      (key : String) (keys : List String) (m m1 : Minted) (d d1 : Db World)
      → mint_key draw key m d ≡ (ok m1, d1)
      → mint_keys draw (key ∷ keys) m d ≡ mint_keys draw keys m1 d1
  unfolding mint_keys
  mint_keys-step key keys m m1 d d1 e = rw e refl

  IsMinted-none : (m : Minted) → IsMinted [] m m
  unfolding reuse
  IsMinted-none m = record {
    settled = tt;
    tokens = refl;
    stays = λ key has. refl;
    grows = λ e. e;
    unchanged = λ e. refl;
  }

  module _ (good : (n : ℕ) → (draw n == "") ≡ false) where
    pub mint_keys-IsMinted :
        (keys : List String) (m : Minted) (d : Db World)
        → IsSound d
        → (m' : Minted) × (n : ℕ) × (mint_keys draw keys m d ≡ (ok m', record d { statements = n }))
          × IsMinted keys m m'
    mint_keys-IsMinted [] m d fine = (m, d.statements, unfold mint_keys in refl, IsMinted-none m)
    mint_keys-IsMinted (key ∷ keys) m d fine =
        elim (Bool-cases (token_in m.annotations key == "")) [
          | inl e ↦
              let (m', n, run, i) =
                mint_keys-IsMinted keys (freshened (draw d.statements) key m)
                  (record d { statements = suc d.statements }) fine in
              (
                m',
                n,
                mint_keys-step key keys m _ d _ (mint_key-fresh key m d fine e) ∙ run,
                IsMinted-fresh (draw d.statements) key keys m m' (good d.statements) e i,
              )
          | inr e ↦
              let (m', n, run, i) =
                mint_keys-IsMinted keys
                  (record m { tokens = insert key (token_in m.annotations key) m.tokens }) d fine in
              (
                m',
                n,
                mint_keys-step key keys m _ d _ (mint_key-held key m d e) ∙ run,
                IsMinted-held key keys m m' e i,
              )
        ]

  -- Where every key has its token, the loop reads them.
  pub mint_keys-settled :
      (keys : List String) (m : Minted) (d : Db World)
      → All (HasToken m.annotations) keys
      → mint_keys draw keys m d ≡ (ok (record m { tokens = reuse m.annotations keys m.tokens }), d)
  unfolding mint_keys reuse
  mint_keys-settled [] m d all = refl
  mint_keys-settled (key ∷ keys) m d all = rw (mint_key-held key m d all.0) (
      mint_keys-settled keys
        (record m { tokens = insert key (token_in m.annotations key) m.tokens }) d all.1)
