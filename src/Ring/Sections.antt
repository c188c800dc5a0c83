-- ===== src/Ring/Sections.antt =====
-- The locked sections of several goroutines in any order, and Destroy in two halves: another
-- goroutine's section can run after the flag is raised and before the storage is freed.
use kptv_proxy.Prelude.{
  ℕ, ◌+◌, ◌^◌, ◌<◌, ◌≤◌, ◌≡◌, refl, sym, ◌∙◌, subst, ◌≢◌, false, true, none, some, List, [], ◌∷◌,
  ◌++◌, length, replicate, length-append, arith,
}
use kptv_proxy.Ring.{
  RingBuffer, panic, new_ring_buffer, destroy_mark, destroy_section, reset_section, peek_section,
  write_section,
}
use kptv_proxy.Ring.Window.{Holds}
use kptv_proxy.Ring.Append.{write-Holds, stored_after}
use kptv_proxy.Ring.Refine.{new-Holds, peek-Holds}
use kptv_proxy.Ring.Log.{recent}

-- The buffers that can come about from a new one, with how many bytes were passed to Write.
pub data Reach (size : ℕ) : ℕ → RingBuffer → Type 0 where
  start : Reach size 0 (new_ring_buffer size)
  writes :
      {total : ℕ} {rb : RingBuffer} (next : ℕ) (rb' : RingBuffer) (bs : List ℕ)
      → Reach size total rb
      → next ≡ total + length bs
      → write_section rb bs ≡ some rb'
      → Reach size next rb'
  resets : {total : ℕ} {rb : RingBuffer} → Reach size total rb → Reach size total (reset_section rb)
  marks : {total : ℕ} {rb : RingBuffer} → Reach size total rb → Reach size total (destroy_mark rb)
  frees :
      {total : ℕ} {rb : RingBuffer}
      → Reach size total rb
      → rb.destroyed ≡ true
      → Reach size total (destroy_section rb)

-- Destroyed, or standing for a log of at most `total` bytes.
data Safe (size total : ℕ) (rb : RingBuffer) : Type 0 where
  gone : rb.destroyed ≡ true → Safe size total rb
  holds :
      (store h : List ℕ) → rb.size ≡ size → length h ≤ total → Holds rb store h → Safe size total rb

write-Safe :
    {size total next : ℕ} {rb rb' : RingBuffer} (bs : List ℕ)
    → 0 < size
    → total + length bs < 2 ^ 63
    → next ≡ total + length bs
    → write_section rb bs ≡ some rb'
    → Safe size total rb
    → Safe size next rb'
unfolding write_section
write-Safe bs pos small e w (gone d) = gone (ground arith)
write-Safe {size} {next} bs pos small e w (holds store h s l v) =
    let done = write-Holds bs v (omega arith) (omega arith) in
    subst (Safe size next) (cc done.1)
      (holds (stored_after bs v) (h ++ bs) s (omega (arith, length-append h bs)) done.2)

reset_live :
    (rb : RingBuffer) → rb.destroyed ≡ false → record rb { write_pos = 0 } ≡ reset_section rb
unfolding reset_section
reset_live rb e = ground arith

reset-Safe :
    {size total : ℕ} {rb : RingBuffer} → Safe size total rb → Safe size total (reset_section rb)
reset-Safe (gone d) = gone (unfold reset_section in ground arith)
reset-Safe {size} {total} {rb} (holds store h s l v) =
    subst (Safe size total) (reset_live rb v.live) (
      holds store [] s (omega arith) (record {
        live = v.live;
        stored = v.stored;
        full = v.full;
        at_end = refl;
        window = λ j p q. elim p [ ];
      }))

reach-Safe :
    {size total : ℕ} {rb : RingBuffer}
    → 0 < size
    → total < 2 ^ 63
    → Reach size total rb
    → Safe size total rb
reach-Safe {size} pos small start =
    holds (replicate size 0) [] (unfold new_ring_buffer in refl) (omega arith) (new-Holds size)
reach-Safe pos small (writes next rb' bs r e w) =
    write-Safe bs pos (omega arith) e w (reach-Safe pos (omega arith) r)
reach-Safe pos small (resets r) = reset-Safe (reach-Safe pos small r)
reach-Safe pos small (marks r) = gone (unfold destroy_mark in refl)
reach-Safe pos small (frees r d) = gone (unfold destroy_section in d)

recent_no_panic : (size n : ℕ) (h : List ℕ) → recent size n h ≢ panic
unfolding recent
recent_no_panic size n [] = λ e. cc
recent_no_panic size n (x ∷ h) = λ e. cc

-- On every buffer that can come about from a new one of a size above 0, as long as fewer than 2^63
-- bytes are written, neither the section of Write nor that of PeekRecentData, asked for a natural
-- number of bytes, panics, though Destroy may be half done.
pub sections_never_panic :
    {size total : ℕ} {rb : RingBuffer} (bs : List ℕ) (n : ℕ)
    → 0 < size
    → total + length bs < 2 ^ 63
    → Reach size total rb
    → (write_section rb bs ≢ none) × (peek_section rb n ≢ panic)
sections_never_panic {size} {total} {rb} bs n pos small r = elim (reach-Safe pos (omega arith) r) [
  | gone d ↦ (λ e. unfold write_section in ground arith, λ e. unfold peek_section in ground arith)
  | holds store h s l v ↦ (
    λ e. cc ((write-Holds bs v (omega arith) (omega arith)).1),
    λ e. recent_no_panic rb.size n h (sym (peek-Holds h n v (omega arith) (omega arith)) ∙ e),
  )
]
