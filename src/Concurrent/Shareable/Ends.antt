-- ===== src/Concurrent/Shareable/Ends.antt =====
-- What readers of a `ShareableFile` get once it is dropped (src/concurrent.rs).
use sandboxfs_rust.Base.{
  ℕ, ◌≤◌, true, List, [], ◌∷◌, ◌++◌, Bytes, nat_eq, ◌≡◌, ◌≢◌, refl, sym, ap, ◌∙◌, arith,
}
use mathlib.Core.Path.{subst}
use sandboxfs_rust.Errors.{Result, IoError, NixError, sys, other}
use sandboxfs_rust.Errors
use sandboxfs_rust.Monad.{ok}
use sandboxfs_rust.Concurrent.{has}
use sandboxfs_rust.Run.{>>=-ok}
use sandboxfs_rust.Concurrent.Shareable.{
  Descriptors, ShareableFile, ShareableFileReader, Shared, tell_watcher, tell_watchers,
  close_quietly, drop_file, read_ready, wait_and_read, end_if_closed, read,
}

abbrev pub All : (ℕ → Type 0) → List ℕ → Type 0
All P [] = Unit {0}
All P (x ∷ xs) = P x × All P xs

-- An error of a call carries its errno.
abbrev pub IsSystem : {A : Type 0} → Result NixError A → Type 0
IsSystem (Errors.ok a) = Unit {0}
IsSystem (Errors.err (sys errno)) = Unit {0}
IsSystem (Errors.err other) = ⊥

-- What is documented of pipes and of `select`. `Wakes v n k` says that closing `v` in the world `k`
-- hangs up the pipe that `n` reads from, and `IsReady n k` that a read of `n` would not block
-- there.
pub record PipeLaws {W : Type 0} (d : Descriptors W) : Type 1 where
  pub Wakes : ℕ → ℕ → W → Type 0
  pub IsReady : ℕ → W → Type 0
  pub write-IsSystem : (v : ℕ) (b : Bytes) (k : W) → IsSystem (d.write v b k).0
  pub select-IsSystem : (set : List ℕ) (k : W) → IsSystem (d.select set k).0
  pub write-Wakes : (u v n : ℕ) (b : Bytes) (k : W) → Wakes v n k → Wakes v n (d.write u b k).1
  pub close-Wakes : (u v n : ℕ) (k : W) → u ≢ v → u ≢ n → Wakes v n k → Wakes v n (d.close u k).1
  pub close-IsReady : (v n : ℕ) (k : W) → Wakes v n k → IsReady n (d.close v k).1
  pub write-IsReady_stays :
      (u n : ℕ) (b : Bytes) (k : W) → IsReady n k → IsReady n (d.write u b k).1
  pub close-IsReady_stays : (u n : ℕ) (k : W) → u ≢ n → IsReady n k → IsReady n (d.close u k).1
  pub select_count :
      (m n : ℕ) (k : W) (c : ℕ) (left : List ℕ)
      → (d.select (m ∷ n ∷ []) k).0 ≡ Errors.ok (c, left)
      → c ≤ 2
  pub select_ready :
      (m n : ℕ) (k : W) (c : ℕ) (left : List ℕ)
      → IsReady n k
      → (d.select (m ∷ n ∷ []) k).0 ≡ Errors.ok (c, left)
      → has n left ≡ true

module _ {W : Type 0} (d : Descriptors W) (laws : PipeLaws d) where
  -- The world after the watchers have been told, one after the other.
  abbrev told : List ℕ → W → W
  told [] k = k
  told (v ∷ vs) k = told vs (d.close v (d.write v (0 ∷ []) k).1).1

  told-append : (xs ys : List ℕ) (k : W) → told (xs ++ ys) k ≡ told ys (told xs k)
  told-append [] ys k = refl
  told-append (x ∷ xs) ys k = told-append xs ys (d.close x (d.write x (0 ∷ []) k).1).1

  told-Wakes :
      (v n : ℕ) (us : List ℕ) (k : W)
      → All (λ u. u ≢ v) us
      → All (λ u. u ≢ n) us
      → laws.Wakes v n k
      → laws.Wakes v n (told us k)
  told-Wakes v n [] k p q h = h
  told-Wakes v n (u ∷ us) k (p, ps) (q, qs) h =
      told-Wakes v n us _ ps qs (laws.close-Wakes u v n _ p q (laws.write-Wakes u v n (0 ∷ []) k h))

  told-IsReady :
      (n : ℕ) (us : List ℕ) (k : W)
      → All (λ u. u ≢ n) us
      → laws.IsReady n k
      → laws.IsReady n (told us k)
  told-IsReady n [] k q h = h
  told-IsReady n (u ∷ us) k (q, qs) h =
      told-IsReady n us _ qs
        (laws.close-IsReady_stays u n _ q (laws.write-IsReady_stays u n (0 ∷ []) k h))

  tell_watcher_lem :
      (v : ℕ) (s : Shared W)
      → tell_watcher d v s ≡ (ok tt, record s { world = told (v ∷ []) s.world })
  unfolding tell_watcher
  tell_watcher_lem v s =
      by_result (d.write v (0 ∷ []) s.world).0 refl (laws.write-IsSystem v (0 ∷ []) s.world)
    where
      by_result :
          (r : Result NixError ℕ)
          → (d.write v (0 ∷ []) s.world).0 ≡ r
          → IsSystem r
          → tell_watcher d v s ≡ (ok tt, record s { world = told (v ∷ []) s.world })
      by_result (Errors.ok a) e h = ground arith
      by_result (Errors.err (sys errno)) e h = ground arith
      by_result (Errors.err other) e h = elim h [ ]

  tell_watchers_lem :
      (vs : List ℕ) (s : Shared W)
      → tell_watchers d vs s ≡ (ok tt, record s { world = told vs s.world })
  unfolding tell_watchers
  tell_watchers_lem [] s = refl
  tell_watchers_lem (v ∷ vs) s =
      let s' : Shared W = record s { world = told (v ∷ []) s.world } in
      >>=-ok (tell_watcher d v) (λ _. tell_watchers d vs) tt s s' (tell_watcher_lem v s)
      ∙ tell_watchers_lem vs s'

  drop_file_lem :
      (f : ShareableFile) (s : Shared W)
      → drop_file d f s
        ≡ (ok tt, record { world = (d.close f.fd (told f.watchers s.world)).1; closed = true })
  unfolding drop_file
  drop_file_lem f s =
      let s' : Shared W = record s { closed = true } in
      >>=-ok (tell_watchers d f.watchers) (λ _. close_quietly d f.fd) tt s'
        (record s' { world = told f.watchers s.world }) (tell_watchers_lem f.watchers s')

  -- A reader that is told to end, or that is kept from reading after the file is closed.
  read-ends :
      (r : ShareableFileReader) (size : ℕ) (s : Shared W)
      → s.closed ≡ true
      → laws.IsReady r.notifier s.world
      → (read d r size s).0 ≡ ok []
  unfolding read wait_and_read read_ready end_if_closed
  read-ends r size s c h =
      by_result (d.select set s.world).0 refl (laws.select-IsSystem set s.world)
    where
      set : List ℕ
      set = r.fd ∷ r.notifier ∷ []

      by_result :
          (o : Result NixError (ℕ × List ℕ))
          → (d.select set s.world).0 ≡ o
          → IsSystem o
          → (read d r size s).0 ≡ ok []
      by_result (Errors.err (sys errno)) e i = ground arith
      by_result (Errors.err other) e i = elim i [ ]
      by_result (Errors.ok (count, left)) e i = ground (
        arith,
        laws.select_count r.fd r.notifier s.world count left e,
        laws.select_ready r.fd r.notifier s.world count left h e,
      )

  -- Once a file is dropped, which never panics, every read of a reader whose notifier hangs up with
  -- one of the file's watchers gives the end of the file: no error and no more content, also if it
  -- waits for the closed file itself. The descriptors that stand for different ends differ.
  pub drop_file-ends :
      (f : ShareableFile) (r : ShareableFileReader) (before after : List ℕ) (v size : ℕ)
      (s : Shared W)
      → f.watchers ≡ before ++ v ∷ after
      → laws.Wakes v r.notifier s.world
      → All (λ u. u ≢ v) before
      → All (λ u. u ≢ r.notifier) before
      → All (λ u. u ≢ r.notifier) after
      → f.fd ≢ r.notifier
      → ((drop_file d f s).0 ≡ ok tt) × ((read d r size (drop_file d f s).1).0 ≡ ok [])
  drop_file-ends f r before after v size s e wakes p q q' differs = (
    ap (λ o. o.0) (drop_file_lem f s),
    subst (λ o. (read d r size o.1).0 ≡ ok []) (sym (drop_file_lem f s))
        (read-ends r size _ refl ready),
  )
    where
      n : ℕ
      n = r.notifier

      woken : W
      woken = (d.write v (0 ∷ []) (told before s.world)).1

      first : laws.Wakes v n woken
      first = laws.write-Wakes v v n (0 ∷ []) _ (told-Wakes v n before s.world p q wakes)

      all_told : laws.IsReady n (told f.watchers s.world)
      all_told =
          subst (laws.IsReady n)
            (sym (ap (λ vs. told vs s.world) e ∙ told-append before (v ∷ after) s.world))
            (told-IsReady n after _ q' (laws.close-IsReady v n woken first))

      ready : laws.IsReady n (d.close f.fd (told f.watchers s.world)).1
      ready = laws.close-IsReady_stays f.fd n _ differs all_told
