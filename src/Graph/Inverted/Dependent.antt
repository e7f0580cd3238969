-- ===== src/Graph/Inverted/Dependent.antt =====
-- `find_dependent_nodes` of Graph (utility.py) returns the nodes that lead to one of the nodes.
use congress.Graph.{Graph}
