-- ===== src/Trace/Written.antt =====
-- The text of a trace file.
use neon_world_os.Base.{
  ℕ, Bool, true, false, List, [], ◌∷◌, ◌++◌, map, Bytes, codes, ◌≡◌, refl, ap, ◌∙◌, sym,
  append_assoc, append-nil, if◌then◌else◌,
}
use neon_world_os.Util.{join, join_from}
use neon_world_os.Trace.{Trace, start, event, event_text, separator, stop}

-- An event: its name, its phase and the reading of the clock.
pub record Event : Type 0 where
  pub name : Bytes
  pub ph : Bytes
  pub ts : ℕ

abbrev pub text_of : Event → Bytes
text_of e = event_text e.name e.ph e.ts

-- The calls of `Event` in order.
unfoldable pub events : List Event → Trace → Trace
events [] t = t
events (e ∷ es) t = events es (event e.name e.ph e.ts t)

-- A trace that is under way.
running : Bytes → Bool → Trace
running file first = record { file = file; is_open = true; started = true; first = first }

events-running :
    (es : List Event) (file : Bytes)
    → events es (running file false) ≡ running (join_from (map text_of es) separator file) false
unfolding events event join_from running
events-running [] file = refl
events-running (e ∷ es) file = events-running es (file ++ (separator ++ text_of e))

events-first :
    (e : Event) (es : List Event) (file : Bytes)
    → events (e ∷ es) (running file true)
      ≡ running (join_from (map text_of es) separator (file ++ text_of e)) false
unfolding events event running
events-first e es file = events-running es (file ++ text_of e)

-- A prefix of what is written stays in front.
join_from-append :
    (ps : List Bytes) (delim a b : Bytes) → join_from ps delim (a ++ b) ≡ a ++ join_from ps delim b
unfolding join_from
join_from-append [] delim a b = refl
join_from-append (p ∷ ps) delim a b =
    ap (join_from ps delim) (append_assoc a b (delim ++ p))
    ∙ join_from-append ps delim a (b ++ (delim ++ p))

file_stop : (file : Bytes) (first : Bool) → (stop (running file first)).file ≡ file ++ codes "\n]\n"
unfolding stop running
file_stop file first = refl

file_events :
    (es : List Event) (file : Bytes)
    → (stop (events es (running file true))).file
      ≡ (file ++ join (map text_of es) separator) ++ codes "\n]\n"
unfolding join
file_events [] file =
    unfold events in
    file_stop file true ∙ ap (λ (f : Bytes). f ++ codes "\n]\n") (sym (append-nil file))
file_events (e ∷ es) file =
    ap (λ (t : Trace). (stop t).file) (events-first e es file)
    ∙ file_stop (join_from (map text_of es) separator (file ++ text_of e)) false
    ∙ ap (λ (f : Bytes). f ++ codes "\n]\n")
        (join_from-append (map text_of es) separator file (text_of e))

start-running : (t : Trace) → t.started ≡ false → start true t ≡ running (codes "[\n") true
unfolding start running
start-running t h = go t.started h
  where
    go :
        (b : Bool)
        → b ≡ false
        → (if b
            then t
            else record { file = codes "[\n"; is_open = true; started = true; first = true })
          ≡ record { file = codes "[\n"; is_open = true; started = true; first = true }
    go true e = absurd (cc)
    go false e = refl

-- A trace that is started, takes events in order and is stopped writes them into its file between
-- brackets, with a comma between two and none before the first or behind the last, if the trace was not
-- under way before and the file can be opened.
pub stop-events :
    (es : List Event) (t : Trace)
    → t.started ≡ false
    → (stop (events es (start true t))).file
      ≡ (codes "[\n" ++ join (map text_of es) separator) ++ codes "\n]\n"
stop-events es t h =
    ap (λ (u : Trace). (stop (events es u)).file) (start-running t h) ∙ file_events es (codes "[\n")
