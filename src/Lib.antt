-- ===== src/Lib.antt =====
-- The Raspberry Pi foosball tracker: a GPU finds the orange ball in each camera frame, and the program
-- under src/tracker turns what it reads back into ball positions, speeds, goals and saves, which it
-- writes to a pipe for the web interface.
--
-- Parts, and the files that model them (paths from the repository's root):
--   src/tracker/core.cpp      Core/Buffers (send_buffer_to_analysis, analysis_thread, the end of
--                             balltrack_core_term), Core/Fps (update_render_fps), Core/Pipeline
--                             (swap, balltrack_core_process_image)
--   src/tracker/analysis.cpp  Analysis (POINT, FIELD, the globals, isInGoal, dist, getPlayerBar),
--                             Analysis/Scorer (getPlayerWhoScored), Analysis/Update
--                             (analysis_update)
--                             Analysis/Pixels (the loops over a buffer), Analysis/Ball
--                             (analysis_process_ball_buffer), Analysis/FieldBounds
--                             (analysis_process_field_buffer), Analysis/Draw (analysis_draw)
--   src/tracker/tga.c         Tga (write_tga, load_tga)
--   src/tracker/util.cpp      Util (SharedMemTexture, brga_to_rgba, dump_buffer_to_console), Util/Shaders
--                             (ShaderProgram::build, cleanupShaders)
--   src/recorder/RaspiCLI.c   Recorder/Cli (look-up of options and of the names of values)
--   src/recorder/RaspiVidBalls.c
--                             Recorder/Settings (default_status and the tables), Recorder/Options
--                             (the options of parse_cmdline), Recorder/CommandLine (its loop),
--                             Recorder/WholeCommandLine (with the parsers of all settings),
--                             Recorder/Circular (the circular buffer of encoder_buffer_callback),
--                             Recorder/Circular/SetUp (how main allocates it), Recorder/KeyFrames (the
--                             callback's ring of key frames and what main saves of both),
--                             Recorder/OpenFile (open_filename), Recorder/Segments (the callback with
--                             files instead of the circular buffer), Recorder/Waiting
--                             (pause_and_test_abort, wait_for_next_change and the loop of main that
--                             switches the capture)
--   src/recorder/RaspiCommonSettings.c, RaspiPreview.c, RaspiTexBalls.c
--                             Recorder/Parameters, Recorder/CommonSettings, Recorder/WindowSettings (the
--                             parsers that parse_cmdline tries), Recorder/Uses (what they use of the
--                             arguments)
--   src/recorder/RaspiCamControl.c
--                             Recorder/Camera (tables of names), with Zoom, Cycle (the demo), Settings
--                             and Parser (the options), and Setters below it
--   src/recorder/RaspiTexBalls.c
--                             Recorder/Preview (the preview worker and the camera's callback)
--
-- How the parts interact: the GL thread runs balltrack_core_process_image once a frame and hands pixel
-- buffers to the analysis thread through four slots and two semaphores; the analysis thread finds
-- the ball in a buffer and calls analysis_update, which reads stableFPS of core.cpp. The recorder's main
-- parses the command line, sets up the camera and the circular buffer, and switches the capture; the camera
-- hands frames to the preview worker, which runs the tracker on them, and encoded data to the encoder's
-- callback, which stores them in the circular buffer or in files.
--
-- Conventions. Floating point is a parameter (Common/Floats): the operations that the program uses,
-- without laws; Common/Fixed is an instance for the witnesses. An int that only counts up from 0 is a
-- number without bound, any other is an integer without bound. An access out of bounds is `none`.
-- A loop recurs on its rounds or on its list; the loops over the ring of key frames have a fuel of a
-- round for each of its 60000 places, after which they repeat themselves, and the loop that switches the
-- capture takes the list of what its calls meet. The libraries, the camera, sockets, keys and the clock are
-- parameters, also how much fwrite accepts. A file of a recording that is opened again is emptied; that two
-- handles share a file is not modelled. GL calls and messages are entries of lists in the order in which
-- they are made. Printing, the timeseries file and the parts under #ifdef that the build leaves out are
-- not modelled; nor are the vendored OpenMAX client,
-- src/recorder/RaspiBalls.c, which is not built, the shaders and the Python scripts.
pub mod Common
pub mod Analysis
pub mod Core
pub mod Recorder
pub mod Tga
pub mod Util
