-- ===== src/Chat/Server/Heard.antt =====
-- What the others hear of the lines of a peer that has given its name.
use mathlib.Core.Path.{subst}
use system_prog.Common.{
  ℕ, ◌+◌, ◌≡◌, ◌≢◌, ◌∙◌, append_assoc, append-nil, refl, sym, ap, true, some, List, [], ◌∷◌, ◌++◌,
  if◌then◌else◌, is_empty, get_elem?, set, Bytes, arith, Bool-cases, inl, inr,
}
use system_prog.Chat.Framing.Lines.{fold_lines}
use system_prog.Chat.Framing.{ChatMessage, trim}
use system_prog.Chat.Link.Stream.{Healthy}
use system_prog.Chat.Server.Broadcast.{
  Ranged, Grown, Grown-refl, Grown-trans, share, broadcast-Healthy, broadcast-Grown,
}
use system_prog.Chat.Server.{Peer, Server, full_message, broadcast_from, say, say_at, handle_line}

-- What the lines of a peer say, and what goes to each of the others, with its name.
abbrev pub said : Bytes → Bytes → List ChatMessage
said name text = if is_empty text then [] else record { author = name; text = text } ∷ []

abbrev pub told : Bytes → Bytes → Bytes
told name text = if is_empty text then [] else full_message name text

abbrev pub all_said : Bytes → List Bytes → List ChatMessage
all_said name [] = []
all_said name (line ∷ ls) = said name (trim line) ++ all_said name ls

abbrev pub all_told : Bytes → List Bytes → Bytes
all_told name [] = []
all_told name (line ∷ ls) = told name (trim line) ++ all_told name ls

-- Peer `i` has the name, the links are in range, and the system takes bytes.
pub record Talks (s : Server) (i : ℕ) (name : Bytes) : Type 0 where
  pub me : Peer
  pub at : get_elem? s.peers i ≡ some me
  pub has_name : me.name ≡ name
  pub received : me.name_received ≡ true
  pub ranged : Ranged s.peers
  pub healthy : Healthy s.answers

abbrev spoken : Server → ℕ → Bytes → Bytes → Server
spoken s i name text =
    broadcast_from s (some i) (record { author = name; text = text }) (full_message name text)

say-named :
    (s : Server) (i : ℕ) (p : Peer) (text name : Bytes)
    → p.name_received ≡ true
    → p.name ≡ name
    → say s i p text ≡ (if is_empty text then s else spoken s i name text)
unfolding say
say-named s i p text name r e =
    let other = record s {
      peers = set s.peers i (record p { name = text; name_received = true });
    } in
    ap
      (λ b.
        if is_empty text
        then s
        else if b
        then broadcast_from s (some i) (record { author = p.name; text = text })
            (full_message (if b then p.name else []) text)
        else other)
      r
    ∙ ap (λ n. if is_empty text then s else spoken s i n text) e

handle_line-named :
    (s : Server) (i : ℕ) (line name : Bytes)
    → (t : Talks s i name)
    → handle_line i s line ≡ (if is_empty (trim line) then s else spoken s i name (trim line))
unfolding handle_line
handle_line-named s i line name t =
    ap (λ o. say_at s i o (trim line)) t.at
    ∙ say-named s i t.me (trim line) name t.received t.has_name

-- What a step of the server does, seen from peer `j`.
pub record Hears (s : Server) (i : ℕ) (name : Bytes) (p : Peer) (j : ℕ) (ms : List ChatMessage)
    (bytes : Bytes) (s' : Server) : Type 0 where
  pub talks : Talks s' i name
  pub messages : s'.messages ≡ s.messages ++ ms
  pub hearer : Peer
  pub found : get_elem? s'.peers j ≡ some hearer
  pub grown : Grown p bytes hearer

module _ (i j : ℕ) (name : Bytes) (apart : j ≢ i) where
  share_open :
      (p : Peer) (bytes : Bytes) → p.link.connected ≡ true → share p (0 + j) (some i) bytes ≡ bytes
  share_open p bytes c = ground arith

  spoken-Hears :
      (s : Server) (p : Peer) (text : Bytes)
      → Talks s i name
      → get_elem? s.peers j ≡ some p
      → p.link.connected ≡ true
      → Hears s i name p j
          (record { author = name; text = text } ∷ [])
          (full_message name text)
          (spoken s i name text)
  spoken-Hears s p text t at c =
      let bytes = full_message name text in
      let healthy = broadcast-Healthy 0 (some i) bytes s.peers s.answers t.ranged t.healthy in
      let (me', at', g') =
        broadcast-Grown 0 (some i) bytes s.peers s.answers t.ranged t.healthy i t.me t.at in
      let (q, found, g) =
        broadcast-Grown 0 (some i) bytes s.peers s.answers t.ranged t.healthy j p at in
      record {
        talks = record {
          me = me';
          at = at';
          has_name = g'.same_name ∙ t.has_name;
          received = g'.same_received ∙ t.received;
          ranged = healthy.0;
          healthy = healthy.1;
        };
        messages = refl;
        hearer = q;
        found = found;
        grown = subst (λ b. Grown p b q) (share_open p bytes c) g;
      }

  handle_line-Hears :
      (s : Server) (p : Peer) (line : Bytes)
      → Talks s i name
      → get_elem? s.peers j ≡ some p
      → p.link.connected ≡ true
      → Hears s i name p j (said name (trim line)) (told name (trim line)) (handle_line i s line)
  handle_line-Hears s p line t at c =
      subst (Hears s i name p j (said name (trim line)) (told name (trim line)))
        (sym (handle_line-named s i line name t))
        (elim (Bool-cases (is_empty (trim line))) [
          | inl e ↦ rw e (record {
            talks = t;
            messages = sym (append-nil s.messages);
            hearer = p;
            found = at;
            grown = Grown-refl p;
          })
          | inr e ↦ rw e (spoken-Hears s p (trim line) t at c)
        ])

  -- Any number of lines.
  pub fold_lines-Hears :
      (ls : List Bytes) (s : Server) (p : Peer)
      → Talks s i name
      → get_elem? s.peers j ≡ some p
      → p.link.connected ≡ true
      → Hears s i name p j (all_said name ls) (all_told name ls) (fold_lines (handle_line i) s ls)
  fold_lines-Hears [] s p t at c = record {
    talks = t;
    messages = sym (append-nil s.messages);
    hearer = p;
    found = at;
    grown = Grown-refl p;
  }
  fold_lines-Hears (line ∷ ls) s p t at c =
      let h = handle_line-Hears s p line t at c in
      let rest =
        fold_lines-Hears ls (handle_line i s line) h.hearer h.talks h.found
          (h.grown.same_connected ∙ c) in
      record {
        talks = rest.talks;
        messages =
            rest.messages
            ∙ ap (λ m. m ++ all_said name ls) h.messages
            ∙ append_assoc s.messages (said name (trim line)) (all_said name ls);
        hearer = rest.hearer;
        found = rest.found;
        grown = Grown-trans h.grown rest.grown;
      }
