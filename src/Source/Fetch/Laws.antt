-- ===== src/Source/Fetch/Laws.antt =====
-- Fetch of internal/source/fetch.go: what it verifies before it touches the destination.
use poc_controller.Prelude.{
  ℕ, ◌≤◌, ◌-◌, ◌^◌, lt64, String, Bool, true, false, ◌≡◌, ◌≢◌, ◌↔◌, ◌⊎◌, inl, inr, refl, ap, subst,
  Option, none, some, Option-cases, Bool-cases, Result-cases, List, ◌∷◌, ◌==◌, ◌^^◌, eq_iff, eqb,
  ltb, length, take, length-take, Error, ok, arith, InRange,
}
use poc_controller.Source.{FetchOptions}
use poc_controller.Source.Disk.{Place, Body, Stat, absent, stat_failed, present, FileSystem, Disk}
use poc_controller.Source.Fetch.{
  Response, Network, effective_max_size, read_limit, limit_reader, check_module_file,
  check_module_dir, validate_cue_module, unpack, verify, receive, fetch,
}

module _ {F : Type 0} (fs : FileSystem F) where
  check_module_file_iff :
      (st : Stat)
      → (check_module_file fs st ≡ none)
        ↔ ((is_dir : Bool) × (n : ℕ) × (st ≡ present is_dir n) × (n ≢ 0))
  unfolding check_module_file
  check_module_file_iff absent = (λ h. cc, λ (a, n, e, z). cc)
  check_module_file_iff (stat_failed x) = (λ h. cc, λ (a, n, e, z). cc)
  check_module_file_iff (present is_dir n) =
      (λ h. (is_dir, n, refl, λ z. ground (arith, h, z)), λ (a, m, e, z). file m e z)
    where
      file :
          (m : ℕ) {a : Bool}
          → present is_dir n ≡ present a m
          → m ≢ 0
          → check_module_file fs (present is_dir n) ≡ none
      file m {a} e z = ground (arith, e, z)

  check_module_dir_iff :
      (dir : Place) (files : F) (st : Stat)
      → (check_module_dir fs dir files st ≡ none) ↔ (
          (size : ℕ) × (st ≡ present true size)
          × (check_module_file fs (fs.stat ("module.cue" ∷ "cue.mod" ∷ dir) files) ≡ none))
  unfolding check_module_dir
  check_module_dir_iff dir files absent = (λ h. cc, λ (n, e, z). cc)
  check_module_dir_iff dir files (stat_failed x) = (λ h. cc, λ (n, e, z). cc)
  check_module_dir_iff dir files (present true n) = (λ h. (n, refl, h), λ (m, e, z). z)
  check_module_dir_iff dir files (present false n) = (λ h. cc, λ (m, e, z). cc)

  -- ValidateCUEModule accepts a directory exactly if its cue.mod is a directory with an entry
  -- module.cue whose size is not 0.
  pub validate_cue_module_iff :
      (dir : Place) (files : F)
      → (validate_cue_module fs dir files ≡ none) ↔ (
          (size : ℕ) × (fs.stat ("cue.mod" ∷ dir) files ≡ present true size)
          × ((is_dir : Bool) × (n : ℕ) × (fs.stat ("module.cue" ∷ "cue.mod" ∷ dir) files
                ≡ present is_dir n)
              × (n ≢ 0)))
  unfolding validate_cue_module check_module_dir check_module_file
  validate_cue_module_iff dir files =
      let (to, from) = check_module_dir_iff dir files (fs.stat ("cue.mod" ∷ dir) files) in
      let (file_to, file_from) =
        check_module_file_iff (fs.stat ("module.cue" ∷ "cue.mod" ∷ dir) files) in
      (
        λ h. let (size, e, k) = to h in (size, e, file_to k),
        λ (size, e, k). from (size, e, file_from k),
      )

  module _ (quote : String → String) (net : Network) (max_size : ℕ) (url digest : String)
      (dir : Place) (opts : FetchOptions) where
    -- A download that is complete, not too large, and has the digest that was asked for.
    pub record IsVerified (bytes : List ℕ) : Type 0 where
      pub response : Response
      pub sent : net.send url ≡ ok response
      pub accepted : response.status_code ≡ 200
      pub whole : response.body ≡ record { bytes = bytes; fails = none }
      pub small : length bytes ≤ effective_max_size max_size
      pub digested : "sha256:" ^^ net.sha256_hex bytes ≡ digest

    -- Nothing is touched, and there is an error.
    abbrev pub IsRefused : Disk F → Option Error × Disk F → Type 0
    IsRefused d r = (r.0 ≢ none) × (r.1 ≡ d)

    refuse : (e : Error) (d : Disk F) → IsRefused d (some e, d)
    refuse e d = ((λ h. cc), refl)

    -- A body that is complete, not too large, and has the digest, and the answer of unpacking it.
    abbrev IsSound : ℕ → Body → Disk F → Option Error × Disk F → Type 0
    IsSound max got d r =
        (got.fails ≡ none)
        × (length got.bytes ≤ max)
        × ("sha256:" ^^ net.sha256_hex got.bytes ≡ digest)
        × (r ≡ unpack fs quote net got.bytes dir opts d)

    verify_cases :
        (max : ℕ) (got : Body) (d : Disk F)
        → InRange max
        → length got.bytes ≤ 2 ^ 63 - 1
        → IsRefused d (verify fs quote net max got digest dir opts d)
          ⊎ IsSound max got d (verify fs quote net max got digest dir opts d)
    unfolding verify
    verify_cases max got d range counted = elim (Option-cases got.fails) [
      | inr (x, e) ↦ inl (rw (e, verify) (refuse _ d))
      | inl e ↦ elim (Option-cases (net.store got.bytes)) [
        | inr (x, f) ↦ inl (rw (e, f, verify) (refuse _ d))
        | inl f ↦ elim (Bool-cases (lt64 max (length got.bytes))) [
          | inl large ↦ inl (rw (e, f, large, verify) (refuse _ d))
          | inr small ↦ elim (Bool-cases ("sha256:" ^^ net.sha256_hex got.bytes == digest)) [
            | inr other ↦ inl (rw (e, f, small, other, verify) (refuse _ d))
            | inl same ↦ inr (
              e,
              ground (arith, small, range, counted),
              (eq_iff _ digest).0 same,
              rw (e, f, small, same, verify) refl,
            )
          ]
        ]
      ]
    ]

    -- What comes through the limit, if it is not more than the maximum, is all.
    limit_reader-whole :
        (max : ℕ) (b : Body)
        → InRange max
        → length (limit_reader (read_limit max) b).bytes ≤ max
        → limit_reader (read_limit max) b ≡ b
    unfolding limit_reader
    limit_reader-whole max b range h = elim (Bool-cases (ltb (length b.bytes) (read_limit max))) [
      | inl short ↦ rw (short, limit_reader) refl
      | inr long ↦ absurd (exceeds long (rw long at h))
    ]
      where
        exceeds :
            ltb (length b.bytes) (read_limit max) ≡ false
            → ¬ (length (take (read_limit max) b.bytes) ≤ max)
        exceeds long k = ground (arith, range, length-take (read_limit max) b.bytes, k, long)

    -- What comes through the limit can be counted by an int64.
    limit_reader-counted :
        (max : ℕ) (b : Body)
        → InRange max
        → length (limit_reader (read_limit max) b).bytes ≤ 2 ^ 63 - 1
    unfolding limit_reader
    limit_reader-counted max b range = elim (Bool-cases (ltb (length b.bytes) (read_limit max))) [
      | inl short ↦ rw (short, limit_reader) (ground (arith, short, range))
      | inr long ↦
          rw (long, limit_reader) (ground (arith, range, length-take (read_limit max) b.bytes))
    ]

    receive_cases :
        (max : ℕ) (response : Response) (d : Disk F)
        → InRange max
        → IsRefused d (receive fs quote net max response digest dir opts d)
          ⊎ ((response.status_code ≡ 200)
              × IsSound max response.body d (receive fs quote net max response digest dir opts d))
    unfolding receive
    receive_cases max response d range = elim (Bool-cases (eqb response.status_code 200)) [
      | inr other ↦ inl (rw (other, receive) (refuse _ d))
      | inl good ↦ elim (Option-cases net.create_temp) [
        | inr (x, e) ↦ inl (rw (good, e, receive) (refuse _ d))
        | inl e ↦
            elim (verify_cases max (limit_reader (read_limit max) response.body) d range
              (limit_reader-counted max response.body range)) [
                | inl bad ↦ inl (rw (good, e, receive) bad)
                | inr (sound, small, digested, same) ↦ inr (
                  ground (arith, good),
                  subst (λ b. IsSound max b d (receive fs quote net max response digest dir opts d))
                      (limit_reader-whole max response.body range small)
                      (sound, small, digested, rw (good, e, receive) same),
                )
              ]
      ]
    ]

    -- Where the maximum size is below 2 ^ 63 - 1, Fetch either touches nothing in the destination and
    -- returns an error, or the server answered 200 with a body that came to its end, is not larger than
    -- the maximum and has the digest that was asked for, and Fetch unpacks exactly that body.
    pub fetch_verifies :
        (d : Disk F)
        → InRange (effective_max_size max_size)
        → IsRefused d (fetch fs quote net max_size url digest dir opts d)
          ⊎ ((bytes : List ℕ) × IsVerified bytes
              × (fetch fs quote net max_size url digest dir opts d
                  ≡ unpack fs quote net bytes dir opts d))
    unfolding fetch receive verify
    fetch_verifies d range = elim (Option-cases (net.new_request url)) [
      | inr (x, e) ↦ inl (rw (e, fetch) (refuse _ d))
      | inl e ↦ elim (Result-cases (net.send url)) [
        | inr (x, f) ↦ inl (rw (e, f, fetch) (refuse _ d))
        | inl (response, f) ↦ elim (receive_cases (effective_max_size max_size) response d range) [
          | inl bad ↦ inl (rw (e, f, fetch) bad)
          | inr (accepted, (sound, small, digested, same)) ↦ inr (
            response.body.bytes,
            record {
              response = response;
              sent = f;
              accepted = accepted;
              whole = ap (λ x. record (response.body) { fails = x }) sound;
              small = small;
              digested = digested;
            },
            rw (e, f, fetch) same,
          )
        ]
      ]
    ]
