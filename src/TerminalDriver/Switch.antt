-- ===== src/TerminalDriver/Switch.antt =====
-- What a switch of the terminal does to the screen, the pages behind it and the cursors.
use ece391_mp.Base.{
  ℕ, ◌+◌, ◌≤◌, ◌<◌, ◌≡◌, ◌≢◌, refl, sym, ap, ◌∙◌, subst, false, ok, ltb, ◌==◌, update, arith,
  ==_refl, ==_iff, Bool-cases, inl, inr, ◌⊎◌,
}
use ece391_mp.Kernel.{Kernel, Terminal, cli}
use ece391_mp.Pit.Display.{map_page-Placed}
use ece391_mp.Screen.{video, num_cols, num_rows}
use ece391_mp.TerminalDriver.{switch_terminal}
use ece391_mp.TerminalDriver.Pages.{
  page_of, OwnPages-map_page, copied, copied-inside, copied-outside,
}
use ece391_mp.TerminalDriver.Exchange.{
  ScreenReady, mapped, exchanged, saving, placed_at, restored, entered, switch_terminal-entered,
}

-- Terminal `b` is on the screen, and what was there is kept for the terminal that was.
pub record Switched (k : Kernel) (b : ℕ) (k' : Kernel) : Type 0 where
  pub current : k'.current_terminal ≡ b
  pub shows :
      (off : ℕ) → off < 4000 → k'.screen.video (video + off) ≡ k.screen.video (page_of b + off)
  pub saves :
      (off : ℕ)
      → off < 4000
      → k'.screen.video (page_of k.current_terminal + off) ≡ k.screen.video (video + off)
  pub others :
      (i off : ℕ)
      → i ≢ k.current_terminal
      → off < 4096
      → k'.screen.video (page_of i + off) ≡ k.screen.video (page_of i + off)
  pub cursor_x : k'.screen.screen_x ≡ (k.terminals b).screen_x
  pub cursor_y : k'.screen.screen_y ≡ (k.terminals b).screen_y
  pub saved_x : (k'.terminals k.current_terminal).screen_x ≡ k.screen.screen_x
  pub saved_y : (k'.terminals k.current_terminal).screen_y ≡ k.screen.screen_y

after : Kernel → ℕ → Kernel
unfolding restored entered
after k b = entered (restored (cli k) b) b

-- An address on one page is not on another.
apart :
    (a b off : ℕ)
    → a ≢ b
    → off < 4096
    → (page_of b + off < page_of a) ⊎ (page_of a + 4096 ≤ page_of b + off)
apart a b off ne lt = elim (Bool-cases (ltb a b)) [
  | inl h ↦ inr (ground (arith, h))
  | inr h ↦ inl (ground (arith, h, ne))
]

-- Two copies, from the screen to a page and then from another page to the screen.
both : (ℕ → ℕ) → ℕ → ℕ → ℕ → ℕ
both v a b = copied (copied v (page_of a) video) video (page_of b)

both-shows :
    (v : ℕ → ℕ) (a b off : ℕ) → a ≢ b → off < 4000 → both v a b (video + off) ≡ v (page_of b + off)
unfolding both
both-shows v a b off ne lt =
    copied-inside (copied v (page_of a) video) video (page_of b) off lt
    ∙ copied-outside v (page_of a) video (page_of b + off) (apart a b off ne (omega arith))

both-saves : (v : ℕ → ℕ) (a b off : ℕ) → off < 4000 → both v a b (page_of a + off) ≡ v (video + off)
unfolding both
both-saves v a b off lt =
    copied-outside (copied v (page_of a) video) video (page_of b) (page_of a + off)
      (inr (omega arith))
    ∙ copied-inside v (page_of a) video off lt

both-others :
    (v : ℕ → ℕ) (a b i off : ℕ)
    → i ≢ a
    → off < 4096
    → both v a b (page_of i + off) ≡ v (page_of i + off)
unfolding both
both-others v a b i off ne lt =
    copied-outside (copied v (page_of a) video) video (page_of b) (page_of i + off)
      (inr (omega arith))
    ∙ copied-outside v (page_of a) video (page_of i + off) (apart a i off (λ e. ne (sym e)) lt)

after-video :
    (k : Kernel) (b : ℕ) → (after k b).screen.video ≡ both k.screen.video k.current_terminal b
unfolding after both entered restored exchanged mapped placed_at saving
after-video k b = refl

after-current : (k : Kernel) (b : ℕ) → (after k b).current_terminal ≡ b
unfolding after entered
after-current k b = refl

after-cursor :
    (k : Kernel) (b : ℕ)
    → ((after k b).screen.screen_x ≡ (k.terminals b).screen_x)
      × ((after k b).screen.screen_y ≡ (k.terminals b).screen_y)
unfolding after entered restored exchanged mapped placed_at saving
after-cursor k b = (refl, refl)

-- A terminal with the cursor of the screen, and the one that is entered.
keeping : Kernel → Terminal → Terminal
keeping k t = record t { screen_x = k.screen.screen_x; screen_y = k.screen.screen_y }

running : Terminal → Terminal
running t = record t { status = 1 }

kept : Kernel → ℕ → Terminal
kept k = update k.terminals k.current_terminal (keeping k (k.terminals k.current_terminal))

after-terminals :
    (k : Kernel) (b : ℕ) → (after k b).terminals ≡ update (kept k) b (running (kept k b))
unfolding after entered restored exchanged mapped placed_at saving keeping running kept
after-terminals k b = refl

saved_cursor :
    (k : Kernel) (b : ℕ)
    → k.current_terminal ≢ b
    → update (kept k) b (running (kept k b)) k.current_terminal
      ≡ keeping k (k.terminals k.current_terminal)
unfolding kept
saved_cursor k b ne =
    let other : (b == k.current_terminal) ≡ false = ground (arith, ne) in
    rw (other, ==_refl k.current_terminal) refl

-- What holds of each terminal still holds after a write to one of them.
update-each :
    (P : ℕ → Terminal → Type 0) (f : ℕ → Terminal) (i : ℕ) (t : Terminal)
    → ((j : ℕ) → j < 3 → P j (f j))
    → P i t
    → (j : ℕ) → j < 3
    → P j (update f i t j)
update-each P f i t each this j lt = elim (Bool-cases (i == j)) [
  | inl here ↦ rw here (subst (λ n. P n t) ((==_iff i j).0 here) this)
  | inr other ↦ rw other (each j lt)
]

-- A terminal of its own page, with a cursor on the screen.
Fits : ℕ → Terminal → Type 0
Fits i t = (t.vid_mem_buf ≡ page_of i) × (t.screen_x < num_cols) × (t.screen_y < num_rows)

after-Fits :
    (k : Kernel) (b : ℕ)
    → ScreenReady k
    → b < 3
    → (i : ℕ) → i < 3
    → Fits i ((after k b).terminals i)
unfolding Fits keeping running kept
after-Fits k b r lt i small =
    let a = k.current_terminal in
    let first : (j : ℕ) → j < 3 → Fits j (kept k j) =
      update-each Fits k.terminals a (keeping k (k.terminals a))
        (λ j h. (r.pages j h, r.columns j h, r.rows j h))
        (r.pages a (r.terminal), r.column, r.row) in
    subst (λ f. Fits i (f i)) (sym (after-terminals k b))
      (update-each Fits (kept k) b (running (kept k b)) first (first b lt) i small)

after-ScreenReady : (k : Kernel) (b : ℕ) → ScreenReady k → b < 3 → ScreenReady (after k b)
unfolding after entered restored exchanged mapped placed_at saving Fits
after-ScreenReady k b r lt = record {
  placed = map_page-Placed _ _ _ _ (map_page-Placed _ _ _ _ (r.placed));
  in_range = r.in_range;
  block = r.block;
  own =
      OwnPages-map_page _ k.running_pid _ (OwnPages-map_page k.paging k.running_pid video (r.own));
  terminal = lt;
  pages = λ i h. (after-Fits k b r lt i h).0;
  columns = λ i h. (after-Fits k b r lt i h).1;
  rows = λ i h. (after-Fits k b r lt i h).2;
  column = r.columns b lt;
  row = r.rows b lt;
}

after-Switched : (k : Kernel) (b : ℕ) → b ≢ k.current_terminal → Switched k b (after k b)
unfolding keeping
after-Switched k b ne =
    let a = k.current_terminal in
    let ne' : a ≢ b = λ e. ne (sym e) in
    let saved : (after k b).terminals a ≡ keeping k (k.terminals a) =
      ap (λ f. f a) (after-terminals k b) ∙ saved_cursor k b ne' in
    record {
      current = after-current k b;
      shows = λ off lt.
          ap (λ v. v (video + off)) (after-video k b) ∙ both-shows k.screen.video a b off ne' lt;
      saves = λ off lt.
          ap (λ v. v (page_of a + off)) (after-video k b) ∙ both-saves k.screen.video a b off lt;
      others = λ i off other lt.
          ap (λ v. v (page_of i + off)) (after-video k b)
          ∙ both-others k.screen.video a b i off other lt;
      cursor_x = (after-cursor k b).0;
      cursor_y = (after-cursor k b).1;
      saved_x = ap (λ t. t.screen_x) saved;
      saved_y = ap (λ t. t.screen_y) saved;
    }

-- A switch to another terminal succeeds: the screen shows that terminal's page, with its cursor; the
-- page and the cursor of the terminal that was there are what was on the screen; no other page
-- changes; and the next switch starts from a state that is as fit. This is for a running process
-- whose tables map the three pages to themselves, and for saved cursors that are on the screen.
pub switch_terminal-Switched :
    (k : Kernel) (b : ℕ)
    → ScreenReady k
    → b < 3
    → b ≢ k.current_terminal
    → (k' : Kernel) × (switch_terminal k b ≡ ok k') × Switched k b k' × ScreenReady k'
unfolding after
switch_terminal-Switched k b r lt ne = (
  after k b,
  switch_terminal-entered k b r lt ne,
  after-Switched k b ne,
  after-ScreenReady k b r lt,
)

-- A switch to another terminal and a switch back: the screen, the cursor and the page of the other
-- terminal are as they were before the first one, under the same conditions.
pub switch_terminal-switch_terminal :
    (k : Kernel) (b : ℕ)
    → ScreenReady k
    → b < 3
    → b ≢ k.current_terminal
    → (k' k'' : Kernel) × (switch_terminal k b ≡ ok k')
      × (switch_terminal k' k.current_terminal ≡ ok k'')
      × (k''.current_terminal ≡ k.current_terminal)
      × (k''.screen.screen_x ≡ k.screen.screen_x)
      × (k''.screen.screen_y ≡ k.screen.screen_y)
      × ((off : ℕ)
          → off < 4000
          → (k''.screen.video (video + off) ≡ k.screen.video (video + off))
            × (k''.screen.video (page_of b + off) ≡ k.screen.video (page_of b + off)))
switch_terminal-switch_terminal k b r lt ne =
    let a = k.current_terminal in
    let (k', first, there, r') = switch_terminal-Switched k b r lt ne in
    let away : a ≢ k'.current_terminal = λ e. ne (sym (e ∙ there.current)) in
    let (k'', second, back, r'') = switch_terminal-Switched k' a r' (r.terminal) away in
    (
      k',
      k'',
      first,
      second,
      back.current,
      back.cursor_x ∙ there.saved_x,
      back.cursor_y ∙ there.saved_y,
      λ off h. (
        back.shows off h ∙ there.saves off h,
        ap (λ i. k''.screen.video (page_of i + off)) (sym (there.current))
            ∙ back.saves off h
            ∙ there.shows off h,
      ),
    )
