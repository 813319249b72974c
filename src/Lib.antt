-- ===== src/Lib.antt =====
-- The client of a Pound-Drever-Hall lock: a Python API that talks to a server on a Red Pitaya, and a
-- Tk window that configures the loop through it and locks a laser.
--
-- The program's parts. The window (client/gui.py) has a panel for each part of the hardware. A panel
-- reads its entries, checks them and calls one function of the API in a thread. The API
-- (client/pdh_api/api.py, with its types in client/pdh_api/types.py) sends each command as a text to
-- the server, parses the lines of the answer, and fetches what the server has logged over SFTP.
-- Filters are designed in client/pdh_api/fir_design.py, of which core/hw/sim/run_fir_freq.py has a
-- copy. Scripts around them make what the parts read: core/hw/generate_lut.py the sine table of the
-- hardware, test_resources/gen_fir_coeffs.py the coefficients that the client loads, the runners in
-- core/hw/sim numbered folders of results, and sim/linewidth/process_spa.py the table of a spectrum.
--
-- Common holds what the other modules share: the libraries' names, Boolean tests, lists and integers
-- over the native numbers, and texts as lists of code points. Python holds what the code uses of
-- Python: exceptions as values (Python/Result), the methods of str (Python/Str), int and its decimal
-- print (Python/Number), what a regular expression of disjoint classes is built from
-- (Python/Pattern), and float as a type with its operations, a parameter of the development
-- (Python/Float).
--
-- Api models client/pdh_api. Api/Types: the selectors, with what IntEnum gives them, and the columns.
-- Api/Response: _parse_response. Api/Transport: the module's globals with what has been sent and the
-- files that have been fetched (World), execute_cmd, _ssh_fetch_csv and the decorator api_cmd. The
-- socket, paramiko and numpy.loadtxt are the fields of the parameter Outside. Api/Commands: the
-- commands, each as its body under the decorator. Api/Arrays: the columns of an array.
-- Api/Analysis: compute_lockpoint (LockPoint), api_psd (Spectrum) and api_control_metrics (Metrics),
-- with numpy as the parameter Numeric.
--
-- Fir/Design models design_lowpass and its copy, with the exceptions that the arithmetic can raise.
--
-- Gui models client/gui.py. Gui/Panel: _Panel with its buttons. Gui/Check: how a handler refuses or
-- goes on to a call. Gui/Forms: the entries of the panels with the values that they start with, and
-- the handlers of their buttons up to the call. Gui/Window: the connection entries and the status
-- bar with its timer. Gui/Autolock: _on_autolock and _autolock_bg, with numpy as a parameter.
-- Gui/Persist: the persistent mode, with the timers of its ticks and the locks in flight. Its steps
-- are the clicks, the ticks that are due and the ends of locks, in any order. Gui/Request: a
-- request, from the click over its thread to its answer. Request/Overlap: requests of several panels
-- at once, with clicks, threads and answers in any order. Gui/Calls: which function of the API a
-- request runs. Gui/Answers: the answers whose text may raise. Gui/Figures: the curves of the
-- figures, the tables and the metrics that their menus export, with numpy as the parameter Numeric;
-- the spectra of a PSD are in Figures/Spectrum, and the figure of the control metrics in
-- Figures/Metrics. Gui/Autolock/Sync: what the answer of a lock writes into other panels.
--
-- Board models core/sw/server.c, the C program that the client talks to, from the buffer of one read
-- to the command that is run (Board/Context, Board/Dispatch) and the answer (Board/Answer), with the
-- checks that core/sw/control/control.c makes on integers, coefficients and the voltages of a sweep
-- (Board/Guards). strtof and the print of a float are the parameter CLib, and the comparison of
-- floats is CFloat; a long has 32 bits. Board/Calls says what the calls of the panels put on the
-- wire.
--
-- Scripts models the scripts. Scripts/Artifacts: _make_artifact_dir, of which the three runners have a
-- copy. Scripts/SineTable: generate_lut.py. Scripts/FirCoeffs: gen_fir_coeffs.py. Scripts/Trace:
-- process_spa.py, with its regular expression in Trace/Line. Scripts/FirFreq, Scripts/Bode and
-- Scripts/Regression: run_fir_freq.py, run_bode.py and run_regression.py, with what they share in
-- Scripts/Runs; make and the clock are parameters. What the figures of run_bode.py show is in
-- Bode/Diagrams.
--
-- Tests runs the theorems at concrete inputs, with integers and NaN for floats and a server that
-- accepts every command.
--
-- Bounds. Loops over lists are structural, so no fuel is needed. The search for a free folder has one
-- round for each thing that exists and one more, which is enough because every round that goes on
-- meets another of them; digits of a number have fuel above it. Integers are unbounded, as Python's
-- are. Digits and spaces are the ASCII ones. One recv is at most 4096 bytes, and it is the whole
-- answer.
--
-- Not modelled. The drawing of the figures and their dialogs, the layout of the window, the texts in
-- which a panel shows an answer, and the steps inside a thread: a call runs as one step, though the
-- lock of the API is held for its command only; Api/Commands/Captures/Race takes two captures apart
-- whose commands both come before their fetches. Of the scripts: the drawing, the printed summaries
-- and the notes that run_fir_freq.py adds to its JSON. Of the server, the registers and the sockets.
-- The tests under core/hw/sim/utils run inside a simulator.
pub mod Api
pub mod Board
pub mod Common
pub mod Fir
pub mod Gui
pub mod Python
pub mod Scripts
pub mod Tests
