-- ===== src/Stream/Channel.antt =====
-- StreamChannel<T>: a queue of containers under a mutex, with a flag. Each method is one step,
-- since it holds the mutex; `get` with `wait` blocks until the channel is closed or has content.
use snap_plugin_lib_cpp.Base.{
  ◌≡◌, refl, sym, inl, inr, Bool-cases, ap, ◌∙◌, Bool, true, false, not, ◌&&◌, ◌||◌, Option, none,
  some, List, [], ◌∷◌, ◌++◌, append-nil, append_assoc, is_empty, concat, arith, if◌then◌else◌,
}

pub record Channel {ℓ} (T : Type ℓ) : Type ℓ where
  pub queue : List T
  pub closed : Bool

module _ {ℓ} {T : Type ℓ} where
  -- `StreamChannel()`
  abbrev pub open_channel : Channel T
  open_channel = record { queue = []; closed = false }

  unfoldable pub close : Channel T → Channel T
  close c = record c { closed = true }

  unfoldable pub is_closed : Channel T → Bool
  is_closed c = c.closed

  -- `none`: the exception "put to closed channel"
  unfoldable pub put : T → Channel T → Option (Channel T)
  put x c = if c.closed then none else some (record c { queue = c.queue ++ (x ∷ []) })

module _ {ℓ} {A : Type ℓ} where
  -- `get(out, wait)`; `none`: the caller goes on waiting. The content of the first container is
  -- appended to `out`.
  take_front : List (List A) → List A → Channel (List A) → Bool × List A × Channel (List A)
  take_front [] out c = (false, out, c)
  take_front (front ∷ queue) out c = (true, out ++ front, record c { queue = queue })

  unfoldable pub get : List A → Bool → Channel (List A) → Option (Bool × List A × Channel (List A))
  unfolding take_front
  get out wait c =
      if wait && not (c.closed || not (is_empty c.queue))
      then none
      else some (take_front c.queue out c)

module _ {ℓ} {A : Type ℓ} where
  take_front-closed :
      (queue : List (List A)) (out : List A) (c : Channel (List A))
      → (take_front queue out c).2.closed ≡ c.closed
  unfolding take_front
  take_front-closed [] out c = refl
  take_front-closed (front ∷ queue) out c = refl

  pub get-closed :
      (out : List A) (wait got : Bool) (out' : List A) (c c' : Channel (List A))
      → get out wait c ≡ some (got, out', c')
      → c'.closed ≡ c.closed
  unfolding get
  get-closed out wait got out' c c' e = ground (arith, take_front-closed c.queue out c)

-- What a thread does to a channel.
pub data Call {ℓ} (A : Type ℓ) : Type ℓ where
  puts : List A → Call A
  gets : Bool → Call A
  closes : Call A

-- The channel, what the puts that were accepted carried, and what the gets delivered.
pub record Trace {ℓ} (A : Type ℓ) : Type ℓ where
  pub channel : Channel (List A)
  pub accepted : List A
  pub delivered : List A

-- What was delivered and then what is queued are what was accepted.
abbrev pub IsFaithful {ℓ} : {A : Type ℓ} → Trace A → Type ℓ
IsFaithful t = t.delivered ++ concat t.channel.queue ≡ t.accepted

module _ {ℓ} {A : Type ℓ} where
  -- A put to a closed channel throws, and a get that has to wait changes nothing.
  pub call : Call A → Trace A → Trace A
  call (puts x) t = elim (put x t.channel) [
    | none ↦ t
    | some c ↦ record t { channel = c; accepted = t.accepted ++ x }
  ]
  call (gets wait) t = elim (get t.delivered wait t.channel) [
    | none ↦ t
    | some (_, out, c) ↦ record t { channel = c; delivered = out }
  ]
  call closes t = record t { channel = close t.channel }

  pub calls : List (Call A) → Trace A → Trace A
  calls [] t = t
  calls (c ∷ cs) t = calls cs (call c t)

  pub concat-append :
      (xss : List (List A)) (xs : List A) → concat (xss ++ (xs ∷ [])) ≡ concat xss ++ xs
  concat-append [] xs = append-nil xs
  concat-append (ys ∷ xss) xs =
      ap (λ zs. ys ++ zs) (concat-append xss xs) ∙ sym (append_assoc ys (concat xss) xs)

  take_front-content :
      (queue : List (List A)) (t : Trace A)
      → t.channel.queue ≡ queue
      → (take_front queue t.delivered t.channel).1
          ++ concat (take_front queue t.delivered t.channel).2.queue
        ≡ t.delivered ++ concat t.channel.queue
  unfolding take_front
  take_front-content [] t e = refl
  take_front-content (front ∷ queue) t e = rw e (append_assoc t.delivered front (concat queue))

  call-IsFaithful : (c : Call A) (t : Trace A) → IsFaithful t → IsFaithful (call c t)
  unfolding call put get close
  call-IsFaithful (puts x) t f = elim (Bool-cases t.channel.closed) [
    | inl shut ↦ rw (shut, call) f
    | inr open_ ↦
        rw (open_, call)
          (ap (λ xs. t.delivered ++ xs) (concat-append t.channel.queue x)
            ∙ sym (append_assoc t.delivered (concat t.channel.queue) x)
            ∙ ap (λ xs. xs ++ x) f)
  ]
  call-IsFaithful (gets wait) t f = ground (arith, take_front-content t.channel.queue t refl)
  call-IsFaithful closes t f = f

  -- Over any sequence of puts, gets and closes, waiting or not, what was delivered and then what is
  -- queued are together the contents of the accepted puts, in their order.
  pub calls-IsFaithful : (cs : List (Call A)) (t : Trace A) → IsFaithful t → IsFaithful (calls cs t)
  unfolding calls
  calls-IsFaithful [] t f = f
  calls-IsFaithful (c ∷ cs) t f = calls-IsFaithful cs (call c t) (call-IsFaithful c t f)
