-- ===== src/KeyLog/Adding.antt =====
-- Adding a key to those that are tracked: src/guaclog/state.c.
use guacenc.Base.{
  ◌≤◌, ◌≡◌, refl, ◌∙◌, ◌⊎◌, inl, inr, Bool, true, false, ◌||◌, none, some, List, [], ◌∷◌, ◌++◌,
  arith, ◌==◌, if◌then◌else◌, Bool-cases, ==_iff, length, length-append, length-take,
}
use guacenc.Base.Int.{ℤ}
use guacenc.KeyLog.{Key, max_keys, replace_key, add_key, trim_keys, same_keysym}
use guacenc.KeyLog.Known.{Keydef}
use guacenc.KeyLog.Tracking.{
  is_down, is_tracked, Unique, AllModifiers, entry, replaced, replace_key_lem, length-replaced,
  is_down-replaced, Unique-replaced, AllModifiers-replaced, same_keysym_sym, same_keysym-cases,
}
use guacenc.KeyLog.Trimming.{EndsPressed, trim_loop_lem, Unique-take, AllModifiers-take}

-- The four facts about the list of tracked keys.
pub record IsTracking (keys : List Key) : Type 0 where
  pub unique : Unique keys
  pub modifiers : AllModifiers keys
  pub ends : EndsPressed keys
  pub fits : length keys ≤ max_keys

pub trim-IsTracking :
    (keys : List Key)
    → Unique keys
    → AllModifiers keys
    → length keys ≤ max_keys
    → IsTracking (trim_keys keys)
unfolding trim_keys
trim-IsTracking keys u m f =
    let (j, same, ends, held) = trim_loop_lem (length keys) keys (omega arith) in
    rw same record {
      unique = Unique-take keys j u;
      modifiers = AllModifiers-take keys j m;
      ends = ends;
      fits = omega (arith, length-take j keys);
    }

untracked :
    (key : Key) (keys : List Key) (d : Keydef)
    → is_tracked d.keysym (key ∷ keys) ≡ false
    → (same_keysym key.keydef.keysym d.keysym ≡ false) × (is_tracked d.keysym keys ≡ false)
untracked key keys d h = ground (arith, h)

pub is_down-new :
    (keys : List Key) (d : Keydef) (p : Bool) (s : ℤ)
    → is_tracked d.keysym keys ≡ false
    → is_down s (keys ++ (entry d p ∷ [])) ≡ (if same_keysym d.keysym s then p else is_down s keys)
is_down-new [] d p s h = refl
is_down-new (key ∷ keys) d p s h =
    let (differs, absent) = untracked key keys d h in
    elim (same_keysym-cases key.keydef.keysym s) [
      | inl (hit, e) ↦ rw (hit, ← e, same_keysym_sym d.keysym key.keydef.keysym, differs)
      | inr miss ↦ rw (miss, is_down-new keys d p s absent)
    ]

pub is_tracked-new :
    (keys : List Key) (d : Keydef) (p : Bool) (s : ℤ)
    → is_tracked s (keys ++ (entry d p ∷ [])) ≡ (is_tracked s keys || same_keysym d.keysym s)
is_tracked-new [] d p s = ground arith
is_tracked-new (key ∷ keys) d p s = ground (arith, is_tracked-new keys d p s)

pub Unique-new :
    (keys : List Key) (d : Keydef) (p : Bool)
    → is_tracked d.keysym keys ≡ false
    → Unique keys
    → Unique (keys ++ (entry d p ∷ []))
Unique-new [] d p h u = (refl, refl)
Unique-new (key ∷ keys) d p h (new, rest) =
    let (differs, absent) = untracked key keys d h in
    (
      is_tracked-new keys d p key.keydef.keysym
          ∙ rw (new, same_keysym_sym d.keysym key.keydef.keysym) differs,
      Unique-new keys d p absent rest,
    )

pub AllModifiers-new :
    (keys : List Key) (d : Keydef) (p : Bool)
    → d.modifier ≡ true
    → AllModifiers keys
    → AllModifiers (keys ++ (entry d p ∷ []))
AllModifiers-new [] d p m a = (m, refl)
AllModifiers-new (key ∷ keys) d p m (k, rest) = (k, AllModifiers-new keys d p m rest)

-- A key is added unless 256 others are tracked.
pub add_key_lem :
    (keys : List Key) (d : Keydef) (p : Bool)
    → d.modifier ≡ true
    → IsTracking keys
    → ((add_key keys d p ≡ none) × (length keys ≡ max_keys) × (is_tracked d.keysym keys ≡ false))
      ⊎ ((keys' : List Key) × (add_key keys d p ≡ some keys')
          × IsTracking (trim_keys keys')
          × ((s : ℤ) → is_down s keys' ≡ (if same_keysym d.keysym s then p else is_down s keys)))
unfolding add_key
add_key_lem keys d p m t = elim (Bool-cases (is_tracked d.keysym keys)) [
  | inl old ↦
      let keys' = replaced keys d p in
      let found : replace_key keys d p ≡ some keys' = rw (replace_key_lem keys d p, old) in
      inr (
        keys',
        rw (add_key, found),
        trim-IsTracking keys' (Unique-replaced keys d p t.unique)
            (AllModifiers-replaced keys d p m t.modifiers)
            (omega (arith, length-replaced keys d p, t.fits)),
        λ s. is_down-replaced keys d p s old,
      )
  | inr new ↦
      let missing : replace_key keys d p ≡ none = rw (replace_key_lem keys d p, new) in
      elim (Bool-cases (length keys == max_keys)) [
        | inl full ↦ inl (rw (add_key, missing, full), (==_iff _ _).0 full, new)
        | inr room ↦
            let keys' = keys ++ (entry d p ∷ []) in
            let fits : length keys' ≤ max_keys =
              ground (arith, t.fits, length-append keys (entry d p ∷ []), room) in
            inr (
              keys',
              rw (add_key, missing, room),
              trim-IsTracking keys' (Unique-new keys d p new t.unique)
                  (AllModifiers-new keys d p m t.modifiers) fits,
              λ s. is_down-new keys d p s new,
            )
      ]
]
