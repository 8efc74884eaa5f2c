-- ===== src/Log/Rotation.antt =====
-- How many texts go to one file of the log.
use newbee.Base.{
  ℕ, suc, ◌+◌, ◌<◌, ◌≤◌, ◌≡◌, refl, sym, ap, subst, ◌∙◌, Bool, true, ◌||◌, List, [], ◌∷◌, ◌++◌,
  foldl, foldl-append, leb, if◌then◌else◌, arith, Bool-cases, inl, inr,
}
use newbee.Log.{
  Log, Date, Output, open_file, close_file, write_text, show_text, post_text, put, new_day,
  new_file, handle_write_file, same_date,
}
use newbee.Log.Names.{File, same_file, is_before, is_later, later_apart, day_later, next_later}

-- Whether the file `f` is the one that is written to, and the number of texts that it was given.
abbrev pub tally : File → Bool × ℕ → Output → Bool × ℕ
tally f (here, count) (open_file date sn) = (same_file (date, sn) f, count)
tally f (here, count) close_file = (here, count)
tally f (here, count) (write_text size) = (here, if here then suc count else count)
tally f (here, count) (show_text size) = (here, count)
tally f (here, count) (post_text size) = (here, count)

abbrev tallied : (first f : File) → Log → Bool × ℕ
tallied first f l = foldl (tally f) (same_file first f, 0) l.output

-- The texts that a log, whose file was `first`, has given to the file `f`.
abbrev pub texts_in : (first f : File) → Log → ℕ
texts_in first f l = (tallied first f l).1

-- The texts that the file thread is given, with their dates.
abbrev pub handle_all : List (Date × ℕ) → Log → Log
handle_all [] l = l
handle_all ((now, size) ∷ texts) l = handle_all texts (handle_write_file now size l)

-- The dates do not go back.
abbrev pub InOrder : Date → List (Date × ℕ) → Type 0
InOrder date [] = Unit {0}
InOrder date ((now, size) ∷ texts) =
    ((same_date now date || is_before date now) ≡ true) × InOrder now texts

same_date-eq : (a b : Date) → same_date a b ≡ true → a ≡ b
same_date-eq (y, m, d) (y', m', d') h =
    let same_year : y ≡ y' = ground arith in
    let same_month : m ≡ m' = ground arith in
    let same_day : d ≡ d' = ground arith in λ i. (same_year i, same_month i, same_day i)

-- The date of the log behind a text.
cur_date-now : (now : Date) (size : ℕ) (l : Log) → (handle_write_file now size l).cur_date ≡ now
unfolding handle_write_file
cur_date-now now size l = elim (Bool-cases (same_date now l.cur_date)) [
  | inl y ↦ rw y (ground (arith, sym (same_date-eq now l.cur_date y)))
  | inr m ↦ rw m (ground arith)
]

module _ (first f : File) where
  tallied-put : (o : Output) (l : Log) → tallied first f (put o l) ≡ tally f (tallied first f l) o
  tallied-put o l = foldl-append (tally f) (same_file first f, 0) l.output (o ∷ [])

  tallied-reopened :
      (es : List Output) (date : Date) (sn : ℕ)
      → foldl (tally f) (same_file first f, 0) ((es ++ close_file ∷ []) ++ open_file date sn ∷ [])
        ≡ (same_file (date, sn) f, (foldl (tally f) (same_file first f, 0) es).1)
  tallied-reopened es date sn =
      foldl-append (tally f) (same_file first f, 0) (es ++ close_file ∷ []) (open_file date sn ∷ [])
      ∙ ap (λ t. tally f t (open_file date sn))
          (foldl-append (tally f) (same_file first f, 0) es (close_file ∷ []))

  abbrev current : Log → File
  current l = (l.cur_date, l.cur_sn)

  -- Between two texts, with the limit `n`.
  record Within (n : ℕ) (l : Log) : Type 0 where
    limit : l.maxline ≡ n
    here : (tallied first f l).0 ≡ same_file (current l) f
    most_le : texts_in first f l ≤ n + 1
    last_le : same_file (current l) f ≡ true → texts_in first f l ≤ n
    counted : same_file (current l) f ≡ true → texts_in first f l ≤ l.cur_line
    none_later : is_later (current l) f ≡ true → texts_in first f l ≡ 0

  -- From the number of texts that the file has.
  counting :
      (n m : ℕ) (l : Log)
      → tallied first f l ≡ (same_file (current l) f, m)
      → l.maxline ≡ n
      → m ≤ n + 1
      → (same_file (current l) f ≡ true → m ≤ n)
      → (same_file (current l) f ≡ true → m ≤ l.cur_line)
      → (is_later (current l) f ≡ true → m ≡ 0)
      → Within n l
  counting n m l e limit most last counted later =
      let count : texts_in first f l ≡ m = ap (λ (t : Bool × ℕ). t.1) e in
      record {
        limit = limit;
        here = ap (λ (t : Bool × ℕ). t.0) e;
        most_le = omega (arith, count, most);
        last_le = λ h. omega (arith, count, last h);
        counted = λ h. omega (arith, count, counted h);
        none_later = λ h. count ∙ later h;
      }

  new_day-Within :
      (n : ℕ) (now : Date) (l : Log)
      → is_before l.cur_date now ≡ true
      → Within n l
      → Within n (new_day now l)
  new_day-Within n now l later w =
      let same : tallied first f (new_day now l) ≡ (same_file (now, 0) f, texts_in first f l) =
        tallied-reopened l.output now 0 in
      let nothing : same_file (now, 0) f ≡ true → texts_in first f l ≡ 0 =
        λ e. w.none_later (day_later now (current l) f later (rw e refl)) in
      counting n (texts_in first f l) (new_day now l) same w.limit w.most_le
        (λ e. omega (arith, nothing e)) (λ e. omega (arith, nothing e))
        (λ e. w.none_later (day_later now (current l) f later (ground (arith, e))))

  abbrev counted_up : ℕ → Log → Log
  counted_up size l = record l { cur_size = l.cur_size + size; cur_line = l.cur_line + 1 }

  -- The number behind a text that is written.
  abbrev behind : Log → ℕ
  behind l = if same_file (current l) f then suc (texts_in first f l) else texts_in first f l

  written_tallied :
      (n size : ℕ) (l : Log)
      → Within n l
      → tallied first f (put (write_text size) l) ≡ (same_file (current l) f, behind l)
  written_tallied n size l w =
      tallied-put (write_text size) l
      ∙ ap (λ (b : Bool). (b, if b then suc (texts_in first f l) else texts_in first f l)) w.here

  behind-le : (n : ℕ) (l : Log) → Within n l → behind l ≤ n + 1
  behind-le n l w = elim (Bool-cases (same_file (current l) f)) [
    | inl y ↦ rw y (omega (arith, w.last_le y))
    | inr m ↦ rw m w.most_le
  ]

  behind_later : (n : ℕ) (l : Log) → Within n l → is_later (current l) f ≡ true → behind l ≡ 0
  behind_later n l w e = rw (later_apart (current l) f e) (w.none_later e)

  kept_Within :
      (n size : ℕ) (l : Log)
      → Within n l
      → l.cur_line < n
      → Within n (counted_up size (put (write_text size) l))
  kept_Within n size l w h =
      let same = written_tallied n size l w in
      counting n (behind l) (counted_up size (put (write_text size) l)) same w.limit
        (behind-le n l w) (λ e. rw e (omega (arith, w.counted e)))
        (λ e. rw e (omega (arith, w.counted e))) (behind_later n l w)

  rotated_Within :
      (n size : ℕ) (l : Log)
      → Within n l
      → Within n (counted_up size (new_file (put (write_text size) l)))
  rotated_Within n size l w =
      let same : tallied first f (new_file (put (write_text size) l))
          ≡ (same_file (l.cur_date, l.cur_sn + 1) f, behind l) =
        tallied-reopened (l.output ++ write_text size ∷ []) l.cur_date (l.cur_sn + 1)
        ∙ ap (λ (t : Bool × ℕ). (same_file (l.cur_date, l.cur_sn + 1) f, t.1))
            (written_tallied n size l w) in
      let nothing : same_file (l.cur_date, l.cur_sn + 1) f ≡ true → behind l ≡ 0 =
        λ e. behind_later n l w (next_later l.cur_date l.cur_sn f (rw e refl)) in
      counting n (behind l) (counted_up size (new_file (put (write_text size) l))) same w.limit
        (behind-le n l w) (λ e. omega (arith, nothing e)) (λ e. omega (arith, nothing e))
        (λ e. behind_later n l w (next_later l.cur_date l.cur_sn f (ground (arith, e))))

  -- The file is changed where a limit is reached.
  rotation_Within :
      (n size : ℕ) (l : Log)
      → Within n l
      → Within n (
          counted_up size (
            if leb l.maxline l.cur_line || leb l.maxsize l.cur_size
            then new_file (put (write_text size) l)
            else put (write_text size) l))
  rotation_Within n size l w =
      elim (Bool-cases (leb l.maxline l.cur_line || leb l.maxsize l.cur_size)) [
        | inl y ↦ rw y (rotated_Within n size l w)
        | inr m ↦ rw m (kept_Within n size l w (ground (arith, w.limit)))
      ]

  handle_write_file-Within :
      (n : ℕ) (now : Date) (size : ℕ) (l : Log)
      → (same_date now l.cur_date || is_before l.cur_date now) ≡ true
      → Within n l
      → Within n (handle_write_file now size l)
  unfolding handle_write_file
  handle_write_file-Within n now size l ordered w = elim (Bool-cases (same_date now l.cur_date)) [
    | inl y ↦ rw y (rotation_Within n size l w)
    | inr m ↦ rw m (
        rotation_Within n size (new_day now l)
          (new_day-Within n now l (ground (arith, m, ordered)) w))
  ]

  handle_all-Within :
      (texts : List (Date × ℕ)) (n : ℕ) (l : Log)
      → InOrder l.cur_date texts
      → Within n l
      → Within n (handle_all texts l)
  handle_all-Within [] n l ordered w = w
  handle_all-Within ((now, size) ∷ texts) n l (ordered, rest) w =
      handle_all-Within texts n (handle_write_file now size l)
        (subst (λ date. InOrder date texts) (sym (cur_date-now now size l)) rest)
        (handle_write_file-Within n now size l ordered w)

-- From a log that has put nothing out, for texts whose dates do not go back, no file, named by its
-- date and its serial number, is given more than one text above `m_maxline`.
pub handle_all-bounded :
    (texts : List (Date × ℕ)) (l : Log) (f : File)
    → l.output ≡ []
    → InOrder l.cur_date texts
    → texts_in (l.cur_date, l.cur_sn) f (handle_all texts l) ≤ l.maxline + 1
handle_all-bounded texts l f none_out ordered =
    let first : File = (l.cur_date, l.cur_sn) in
    (handle_all-Within first f texts l.maxline l ordered (
      counting first f l.maxline 0 l (ap (foldl (tally f) (same_file first f, 0)) none_out) refl
        (omega arith) (λ e. omega arith) (λ e. omega arith) (λ e. refl))).most_le
