-- ===== src/Channel/Laws.antt =====
-- Which calls a channel makes, in which order, on every branch.
use rust_fuse.Prelude.{
  Bool, true, false, ◌&&◌, not, ℕ, Option, ◌≡◌, refl, sym, ◌∙◌, arith, List, [], ◌∷◌, ◌++◌, none,
  some, All, Option-cases, inl, inr, append-nil, append_assoc, if_cases, ◌⊎◌,
}
use rust_fuse.Argument.{Outcome, done, fault, Fault, out_of_bounds, c_string}
use rust_fuse.Argument.Laws.{IsName, c_string-IsName}
use rust_fuse.Channel.Calls.{Libc, Answer, returns, sets_errno}
use rust_fuse.Channel.Traced.{Event, resolves, mounts, closes, unmounts, unmounts_helped, traced}
use rust_fuse.Channel.{
  Channel, IoError, os_errno, invalid_input, IoResult, ok, err, to_cstring, FuseArgs,
  option_strings, fuse_args_of, named, resolved, real_path, mounted, mount_at, mount_resolved, new,
  unmounted, unmount, drop_channel,
}

pub to_cstring-IsName : (name : List ℕ) → IsName name → to_cstring name ≡ some name
unfolding to_cstring
to_cstring-IsName [] h = refl
to_cstring-IsName (b ∷ bs) h = ground (arith, to_cstring-IsName bs h.1)

-- The strings of `argv` are the name of the program and the options, if no option holds a zero byte.
pub option_strings-IsName :
    (options : List (List ℕ)) → All IsName options → option_strings options ≡ done options
unfolding option_strings
option_strings-IsName [] h = refl
option_strings-IsName (o ∷ os) h =
    rw (to_cstring-IsName o h.0, option_strings, option_strings-IsName os h.1)

-- An attempt to open a channel: the calls, and the result.
pub data Opens (options : List (List ℕ)) : List Event → Outcome (IoResult Channel) → Type 0 where
  bad_path : Opens options [] (done (err invalid_input))
  unresolved : (p : List ℕ) (e : IoError) → Opens options (resolves p ∷ []) (done (err e))
  bad_string : (p : List ℕ) (x : Fault) → Opens options (resolves p ∷ []) (fault x)
  refused :
      (p q : List ℕ) (args : FuseArgs) (e : IoError)
      → fuse_args_of options ≡ done args
      → Opens options (resolves p ∷ mounts q args.argv ∷ []) (done (err e))
  opened :
      (p q : List ℕ) (args : FuseArgs) (fd : ℕ)
      → fuse_args_of options ≡ done args
      → IsName q
      → Opens options
          (resolves p ∷ mounts q args.argv ∷ [])
          (done (ok (record { mountpoint = q; fd = fd })))

-- The calls of `unmount`: the helper is asked if, and only if, the unmount was refused for want of
-- permission and the target is not OS X.
pub data Unmounts (libc : Libc) (q : List ℕ) : List Event → Type 0 where
  direct : Unmounts libc q (unmounts q (returns tt) ∷ [])
  kept_mounted :
      (errno : ℕ)
      → (libc.os_x ≡ true) ⊎ (libc.is_permission_denied errno ≡ false)
      → Unmounts libc q (unmounts q (sets_errno errno) ∷ [])
  helped :
      (errno : ℕ)
      → libc.os_x ≡ false
      → libc.is_permission_denied errno ≡ true
      → Unmounts libc q (unmounts q (sets_errno errno) ∷ unmounts_helped q ∷ [])

asks_helper : (os_x denied : Bool) → (not os_x && denied) ≡ true → (os_x ≡ false) × (denied ≡ true)
asks_helper true denied h = cc
asks_helper false denied h = (refl, h)

asks_no_helper :
    (os_x denied : Bool) → (not os_x && denied) ≡ false → (os_x ≡ true) ⊎ (denied ≡ false)
asks_no_helper true denied h = inl refl
asks_no_helper false denied h = inr h

module _ (libc : Libc) where
  abbrev pub Log : Type 0
  Log = (traced libc).World

  -- What was logged beyond a given log, with what it goes with.
  abbrev pub Adds : {A : Type 0} → List Event → (List Event → A → Type 0) → Log × A → Type 0
  Adds log P r = (es : List Event) × (r.0.1 ≡ log ++ es) × P es r.1

  unmounted-Unmounts :
      (q : List ℕ) (log : List Event) (w : libc.World) (a : Answer (Unit {0}))
      → Adds log
          (λ es _. Unmounts libc q es)
          (unmounted (traced libc) q ((w, log ++ (unmounts q a ∷ [])), a))
  unmounted-Unmounts q log w (returns tt) = (unmounts q (returns tt) ∷ [], refl, direct)
  unmounted-Unmounts q log w (sets_errno e) =
      if_cases (Adds log (λ es _. Unmounts libc q es))
        (not libc.os_x && libc.is_permission_denied e)
        (λ h.
          let (elsewhere, denied) = asks_helper libc.os_x (libc.is_permission_denied e) h in
          (
            unmounts q (sets_errno e) ∷ unmounts_helped q ∷ [],
            append_assoc log _ _,
            helped e elsewhere denied,
          ))
        (λ h. (
          unmounts q (sets_errno e) ∷ [],
          refl,
          kept_mounted e (asks_no_helper libc.os_x (libc.is_permission_denied e) h),
        ))

  pub unmount-Unmounts :
      (q : List ℕ) (w : Log)
      → IsName q
      → Adds w.1 (λ es _. Unmounts libc q es) (unmount (traced libc) q w)
  unfolding unmount
  unmount-Unmounts q w h =
      rw (to_cstring-IsName q h, unmount)
        (unmounted-Unmounts q w.1 (libc.umount q w.0).0 (libc.umount q w.0).1)

  -- The destructor closes the descriptor, and then it unmounts.
  pub drop_channel-Unmounts :
      (ch : Channel) (w : Log)
      → IsName ch.mountpoint
      → (u : List Event) × Unmounts libc ch.mountpoint u
        × ((drop_channel (traced libc) ch w).1 ≡ w.1 ++ (closes ch.fd ∷ u))
  unfolding drop_channel
  drop_channel-Unmounts ch w h =
      let (u, e, p) =
        unmount-Unmounts ch.mountpoint (libc.close ch.fd w.0, w.1 ++ (closes ch.fd ∷ [])) h in
      (u, p, e ∙ append_assoc w.1 _ _)

  mounted-Opens :
      (options : List (List ℕ)) (p q : List ℕ) (args : FuseArgs) (log : List Event) (w : libc.World)
      (a : Answer ℕ)
      → fuse_args_of options ≡ done args
      → IsName q
      → Adds log (Opens options) (
          mounted (traced libc) q ((w, (log ++ (resolves p ∷ [])) ++ (mounts q args.argv ∷ [])), a))
  mounted-Opens options p q args log w (returns fd) e h =
      (resolves p ∷ mounts q args.argv ∷ [], append_assoc log _ _, opened p q args fd e h)
  mounted-Opens options p q args log w (sets_errno errno) e h = (
    resolves p ∷ mounts q args.argv ∷ [],
    append_assoc log _ _,
    refused p q args (os_errno errno) e,
  )

  mount_at-Opens :
      (options : List (List ℕ)) (p q : List ℕ) (log : List Event) (w : libc.World)
      (args : Outcome FuseArgs)
      → fuse_args_of options ≡ args
      → IsName q
      → Adds log (Opens options) (mount_at (traced libc) q args (w, log ++ (resolves p ∷ [])))
  unfolding mount_at
  mount_at-Opens options p q log w (fault x) e h = (resolves p ∷ [], refl, bad_string p x)
  mount_at-Opens options p q log w (done args) e h =
      mounted-Opens options p q args log (libc.fuse_mount q args.argv w).0
        (libc.fuse_mount q args.argv w).1 e h

  named-Opens :
      (options : List (List ℕ)) (p buffer : List ℕ) (log : List Event) (w : libc.World)
      (name : Option (List ℕ))
      → c_string buffer ≡ name
      → Adds log (Opens options) (
          mount_resolved
            (traced libc)
            options
            (named (traced libc) (w, log ++ (resolves p ∷ [])) name))
  unfolding mount_resolved
  named-Opens options p buffer log w none e = (resolves p ∷ [], refl, bad_string p out_of_bounds)
  named-Opens options p buffer log w (some q) e =
      mount_at-Opens options p q log w (fuse_args_of options) refl (c_string-IsName buffer e)

  resolved-Opens :
      (options : List (List ℕ)) (p : List ℕ) (log : List Event) (w : libc.World)
      (a : Answer (List ℕ))
      → Adds log (Opens options) (
          mount_resolved
            (traced libc)
            options
            (resolved (traced libc) ((w, log ++ (resolves p ∷ [])), a)))
  unfolding mount_resolved
  resolved-Opens options p log w (sets_errno e) = (resolves p ∷ [], refl, unresolved p (os_errno e))
  resolved-Opens options p log w (returns buffer) =
      named-Opens options p buffer log w (c_string buffer) refl

  -- Whatever libc answers, the calls and the result of `Channel::new` are those of an attempt to
  -- open a channel.
  pub new-Opens :
      (mountpoint : List ℕ) (options : List (List ℕ)) (w : Log)
      → Adds w.1 (Opens options) (new (traced libc) mountpoint options w)
  unfolding new real_path
  new-Opens mountpoint options w = elim (Option-cases (to_cstring mountpoint)) [
    | inl e ↦ rw (e, new) ([], sym (append-nil w.1), bad_path)
    | inr (p, e) ↦
        rw (e, new) (resolved-Opens options p w.1 (libc.realpath p w.0).0 (libc.realpath p w.0).1)
  ]
