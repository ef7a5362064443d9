-- ===== src/Output/Delivery.antt =====
-- What reaches the other side of a socket: of each action, the whole output, or a first part of it and an
-- error.
use guacenc.Base.{
  ℕ, zero, suc, ◌+◌, ◌≤◌, ◌≡◌, refl, sym, ap, ◌∙◌, ◌≢◌, ◌⊎◌, inl, inr, false, Option, none, some,
  List, [], ◌∷◌, ◌++◌, append-nil, append_assoc, arith, if◌then◌else◌, Option-cases, length, drop,
  length-append, drop_left,
}
use guacenc.Base.Int.{ℤ, pos, negsuc}
use mathlib.Core.Path.{ap₂, subst}
use mathlib.Core.List.{cons-ne-nil}
use guacenc.Output.{
  Handlers, GuacSocket, Outcome, returned, is_zero, truth, Action, ◌or_else◌, ◌or_fail◌,
  socket_write, write_loop, write, write_string, instruction_begin, instruction_end, instruction,
  call,
}

-- A call of the write handler took a part of what it was given, and says so unless it fails.
pub record Taken {World : Type 0} (so_far : World → List ℕ) (world : World) (buf : List ℕ)
    (result : Option ℕ) (world' : World) : Type 0 where
  pub taken : List ℕ
  pub rest : List ℕ
  pub parts : buf ≡ taken ++ rest
  pub sent : so_far world' ≡ so_far world ++ taken
  pub counts : (n : ℕ) → result ≡ some n → (n ≡ length taken) × (1 ≤ n)

-- Handlers with the contract of socket-fntypes.h: `sent` is what the write handler has taken so far.
-- Each call takes a byte at least, or fails, and the locks send nothing.
pub record Channel (handlers : Handlers) : Type 0 where
  pub sent : handlers.World → List ℕ
  pub handler : handlers.World → List ℕ → Option ℕ × handlers.World
  pub installed : handlers.write_handler ≡ some handler
  pub takes :
      (world : handlers.World) (buf : List ℕ)
      → buf ≢ []
      → Taken sent world buf (handler world buf).0 (handler world buf).1
  pub lock-sent :
      (f : handlers.World → handlers.World) (world : handlers.World)
      → handlers.lock_handler ≡ some f
      → sent (f world) ≡ sent world
  pub unlock-sent :
      (f : handlers.World → handlers.World) (world : handlers.World)
      → handlers.unlock_handler ≡ some f
      → sent (f world) ≡ sent world

module _ {handlers : Handlers} (channel : Channel handlers) where
  abbrev pub Socket : Type 0
  Socket = GuacSocket handlers.World

  -- The action returns. It has sent all of `out` and returns 0, or a first part of it and an error.
  -- After success the buffer of base64 holds `ready` bytes.
  pub record Delivered (s : Socket) (out : List ℕ) (ready : ℕ) (outcome : Outcome handlers.World)
      : Type 0 where
    pub code : ℤ
    pub socket : Socket
    pub returns : outcome ≡ returned code socket
    pub taken : List ℕ
    pub rest : List ℕ
    pub parts : out ≡ taken ++ rest
    pub sent : channel.sent socket.world ≡ channel.sent s.world ++ taken
    pub result : ((code ≡ pos 0) × (rest ≡ []) × (socket.ready ≡ ready)) ⊎ (is_zero code ≡ false)

  -- An action that is run with no byte in the buffer of base64, and leaves none there.
  abbrev pub Sends : Action handlers.World → List ℕ → Type 0
  Sends a out = (s : Socket) → s.ready ≡ 0 → Delivered s out 0 (a s)

  -- The socket behind a call of the write handler.
  abbrev behind : Socket → List ℕ → Socket
  behind s buf = record s {
    last_write_timestamp = handlers.now s.world;
    world = (channel.handler s.world buf).1;
  }

  socket_write-handler :
      (s : Socket) (buf : List ℕ)
      → socket_write handlers s buf ≡ ((channel.handler s.world buf).0, behind s buf)
  unfolding socket_write
  socket_write-handler s buf = rw (channel.installed) refl

  -- What the loop does with the result of a call.
  abbrev follow : ℕ → List ℕ → Option ℕ → Socket → Outcome handlers.World
  follow rounds buf result s = elim result [
    | some written ↦ write_loop handlers rounds (drop written buf) s
    | none ↦ returned (pos 1) s
  ]

  write_loop_step :
      (rounds byte : ℕ) (buf : List ℕ) (s : Socket)
      → write_loop handlers (suc rounds) (byte ∷ buf) s
        ≡ follow rounds
            (byte ∷ buf)
            (channel.handler s.world (byte ∷ buf)).0
            (behind s (byte ∷ buf))
  unfolding write_loop
  write_loop_step rounds byte buf s =
      ap (λ p. follow rounds (byte ∷ buf) p.0 p.1) (socket_write-handler s (byte ∷ buf))

  write_loop-Delivered :
      (rounds : ℕ) (buf : List ℕ) (s : Socket)
      → length buf ≤ rounds
      → Delivered s buf s.ready (write_loop handlers rounds buf s)
  unfolding write_loop is_zero
  write_loop-Delivered rounds [] s h = record {
    code = pos 0;
    socket = s;
    returns = refl;
    taken = [];
    rest = [];
    parts = refl;
    sent = sym (append-nil _);
    result = inl (refl, refl, refl);
  }
  write_loop-Delivered zero (byte ∷ buf) s h = absurd (omega arith)
  write_loop-Delivered (suc rounds) (byte ∷ buf) s h =
      let s' = behind s (byte ∷ buf) in
      let t = channel.takes s.world (byte ∷ buf) (cons-ne-nil byte buf) in
      let w = write_loop_step rounds byte buf s in
      elim (Option-cases (channel.handler s.world (byte ∷ buf)).0) [
        | inl e ↦ record {
          code = pos 1;
          socket = s';
          returns = w ∙ rw e refl;
          taken = t.taken;
          rest = t.rest;
          parts = t.parts;
          sent = t.sent;
          result = inr refl;
        }
        | inr (n, e) ↦
            let (size, some_taken) = t.counts n e in
            let left : drop n (byte ∷ buf) ≡ t.rest =
              ap₂ drop size t.parts ∙ drop_left t.taken t.rest in
            let all : length (byte ∷ buf) ≡ length t.taken + length t.rest =
              ap length t.parts ∙ length-append t.taken t.rest in
            let d = write_loop-Delivered rounds t.rest s' (omega arith) in
            record {
              code = d.code;
              socket = d.socket;
              returns = w ∙ rw (e, left) d.returns;
              taken = t.taken ++ d.taken;
              rest = d.rest;
              parts =
                  t.parts
                  ∙ ap (λ l. t.taken ++ l) d.parts
                  ∙ sym (append_assoc t.taken d.taken d.rest);
              sent = d.sent ∙ ap (λ l. l ++ d.taken) t.sent ∙ append_assoc _ t.taken d.taken;
              result = d.result;
            }
      ]

  -- `guac_socket_write` returns, and sends its buffer or fails.
  pub write-Delivered : (buf : List ℕ) (s : Socket) → Delivered s buf s.ready (write handlers buf s)
  unfolding write
  write-Delivered buf s = write_loop-Delivered (length buf) buf s (omega arith)

  -- An outcome whose code is replaced, by one that is 0 in the same cases.
  pub recoded :
      {s : Socket} {out : List ℕ} {ready : ℕ} {o o' : Outcome handlers.World}
      (d : Delivered s out ready o) (code' : ℤ)
      → o' ≡ returned code' d.socket
      → (d.code ≡ pos 0 → code' ≡ pos 0)
      → (is_zero d.code ≡ false → is_zero code' ≡ false)
      → Delivered s out ready o'
  recoded d code' e zero_stays error_stays = record {
    code = code';
    socket = d.socket;
    returns = e;
    taken = d.taken;
    rest = d.rest;
    parts = d.parts;
    sent = d.sent;
    result = elim d.result [
      | inl (z, all, ready) ↦ inl (zero_stays z, all, ready)
      | inr error ↦ inr (error_stays error)
    ];
  }

  -- One action behind another that has succeeded.
  pub chained :
      {s : Socket} {out more : List ℕ} {r ready : ℕ} {o o' : Outcome handlers.World}
      (d : Delivered s out r o)
      → d.rest ≡ []
      → Delivered d.socket more ready o'
      → Delivered s (out ++ more) ready o'
  chained {out = out} {more = more} d all e =
      let first : out ≡ d.taken = d.parts ∙ ap (λ l. d.taken ++ l) all ∙ append-nil d.taken in
      record {
        code = e.code;
        socket = e.socket;
        returns = e.returns;
        taken = d.taken ++ e.taken;
        rest = e.rest;
        parts = ap₂ (λ l m. l ++ m) first e.parts ∙ sym (append_assoc d.taken e.taken e.rest);
        sent = e.sent ∙ ap (λ l. l ++ e.taken) d.sent ∙ append_assoc _ d.taken e.taken;
        result = e.result;
      }

  pub reached :
      {s : Socket} {out : List ℕ} {ready : ℕ} {o o' : Outcome handlers.World}
      → o' ≡ o
      → Delivered s out ready o
      → Delivered s out ready o'
  reached {s = s} {out = out} {ready = ready} e d = subst (λ o. Delivered s out ready o) (sym e) d

  -- An action that has failed, and the output that it was a part of.
  pub stopped :
      {s : Socket} {out : List ℕ} {r ready : ℕ} {o o' : Outcome handlers.World} (more : List ℕ)
      (d : Delivered s out r o) (code' : ℤ)
      → o' ≡ returned code' d.socket
      → is_zero code' ≡ false
      → Delivered s (out ++ more) ready o'
  stopped more d code' e error = record {
    code = code';
    socket = d.socket;
    returns = e;
    taken = d.taken;
    rest = d.rest ++ more;
    parts = ap (λ l. l ++ more) d.parts ∙ append_assoc d.taken d.rest more;
    sent = d.sent;
    result = inr error;
  }

  pub truth-Delivered :
      {s : Socket} {out : List ℕ} {ready : ℕ} {o : Outcome handlers.World}
      → Delivered s out ready o
      → Delivered s out ready (truth o)
  unfolding truth is_zero
  truth-Delivered d =
      recoded d (if is_zero d.code then pos 0 else pos 1) (ap truth d.returns) (λ z. rw z refl)
        (λ e. rw e refl)

  pub or_else-Sends :
      {a b : Action handlers.World} {out more : List ℕ}
      → Sends a out
      → Sends b more
      → Sends (a or_else b) (out ++ more)
  unfolding ◌or_else◌ is_zero
  or_else-Sends {a = a} {b = b} {more = more} p q s z =
      let d = p s z in
      elim d.result [
        | inl (c, all, ready) ↦
            let e = chained d all (truth-Delivered (q d.socket ready)) in
            reached (rw (◌or_else◌, d.returns, c) refl) e
        | inr error ↦ stopped more d (pos 1) (rw (◌or_else◌, d.returns, error) refl) refl
      ]

  pub or_fail-Sends :
      {a b : Action handlers.World} {out more : List ℕ}
      → Sends a out
      → Sends b more
      → Sends (a or_fail b) (out ++ more)
  unfolding ◌or_fail◌ is_zero
  or_fail-Sends {a = a} {b = b} {more = more} p q s z =
      let d = p s z in
      elim d.result [
        | inl (c, all, ready) ↦
            let e = chained d all (q d.socket ready) in
            reached (rw (◌or_fail◌, d.returns, c) refl) e
        | inr error ↦ stopped more d (negsuc 0) (rw (◌or_fail◌, d.returns, error) refl) refl
      ]

  pub write_string-Sends : (str : List ℕ) → Sends (write_string handlers str) str
  unfolding write_string
  write_string-Sends str s z =
      subst (λ r. Delivered s str r (truth (write handlers str s))) z
        (truth-Delivered (write-Delivered str s))

  -- A change of the socket that sends nothing and leaves the buffer of base64.
  record Quiet (s s' : Socket) : Type 0 where
    sent : channel.sent s'.world ≡ channel.sent s.world
    ready : s'.ready ≡ s.ready

  call-Quiet :
      (lock : Option (handlers.World → handlers.World)) (s : Socket)
      → ((f : handlers.World → handlers.World) (world : handlers.World)
          → lock ≡ some f
          → channel.sent (f world) ≡ channel.sent world)
      → Quiet s (call lock s)
  call-Quiet none s h = record { sent = refl; ready = refl }
  call-Quiet (some f) s h = record { sent = h f s.world refl; ready = refl }

  -- A whole instruction, between the locks.
  pub instruction-Sends :
      {a : Action handlers.World} {out : List ℕ} → Sends a out → Sends (instruction handlers a) out
  unfolding instruction instruction_begin instruction_end
  instruction-Sends {a = a} p s z =
      let b = call-Quiet handlers.lock_handler s channel.lock-sent in
      let d = p (instruction_begin handlers s) (b.ready ∙ z) in
      let e = call-Quiet handlers.unlock_handler d.socket channel.unlock-sent in
      record {
        code = d.code;
        socket = instruction_end handlers d.socket;
        returns = rw (instruction, instruction_begin, d.returns) refl;
        taken = d.taken;
        rest = d.rest;
        parts = d.parts;
        sent = e.sent ∙ d.sent ∙ ap (λ l. l ++ d.taken) b.sent;
        result = elim d.result [
          | inl (c, all, ready) ↦ inl (c, all, e.ready ∙ ready)
          | inr error ↦ inr error
        ];
      }
